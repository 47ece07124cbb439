-- ===== src/Context/Compress/Prefix.antt =====
-- What `_compress` of context/builder.py keeps of a text.
use mathlib.Core.List.{append_assoc, append-nil}
use mathlib.Core.Path.{subst}
use tokenlyfy_v.Support.{
  ℕ, ◌+◌, ◌≤◌, ◌<◌, ◌⊎◌, inl, inr, List, [], ◌∷◌, ◌++◌, true, false, ◌≡◌, refl, sym, ap, ◌∙◌,
  Bool-cases, All, sum_by, leb, ltb, eqb, leb→le, not-ltb→le, arith,
}
use tokenlyfy_v.Support.Text.{Text}
use tokenlyfy_v.Support.Find.{codes}
use tokenlyfy_v.Context.{Platform, ContextConfig, count_tokens, get_available_tokens, join}
use tokenlyfy_v.Context.Compress.{split_lines, fitting, compress}

-- `"\n".join(text.split("\n"))` is the text.
some_line : (t : Text) → (line : Text) × (lines : List Text) × (split_lines t ≡ line ∷ lines)
unfolding split_lines
some_line [] = ([], [], refl)
some_line (c ∷ t) =
    let (line, lines, e) = some_line t in
    elim (Bool-cases (eqb c b'\n')) [
      | inl same ↦ rw same ([], split_lines t, refl)
      | inr other ↦ rw (other, e) (c ∷ line, lines, refl)
    ]

join_onto :
    (c : ℕ) (line : Text) (lines : List Text)
    → join (codes "\n") ((c ∷ line) ∷ lines) ≡ c ∷ join (codes "\n") (line ∷ lines)
unfolding join
join_onto c line [] = refl
join_onto c line (l ∷ lines) = refl

join-split_lines : (t : Text) → join (codes "\n") (split_lines t) ≡ t
unfolding join split_lines
join-split_lines [] = refl
join-split_lines (c ∷ t) =
    let (line, lines, e) = some_line t in
    let whole : join (codes "\n") (line ∷ lines) ≡ t =
      ap (join (codes "\n")) (sym e) ∙ join-split_lines t in
    elim (Bool-cases (eqb c b'\n')) [
      | inl same ↦ rw (same, e) (ap (◌∷◌ b'\n') whole ∙ ap (λ d. d ∷ t) (sym (eqb→eq c b'\n' same)))
      | inr other ↦ rw (other, e) (join_onto c line lines ∙ ap (◌∷◌ c) whole)
    ]
  where
    eqb→eq : (a b : ℕ) → eqb a b ≡ true → a ≡ b
    eqb→eq a b h = ground arith

-- A front part of the lines is a front part of the text.
join_front :
    (lines rest : List Text)
    → (more : Text) × (join (codes "\n") (lines ++ rest) ≡ join (codes "\n") lines ++ more)
unfolding join
join_front [] rest = (_, refl)
join_front (line ∷ []) [] = ([], sym (append-nil line))
join_front (line ∷ []) (r ∷ rest) = (_, append_assoc line (codes "\n") _)
join_front (line ∷ next ∷ lines) rest =
    let (more, e) = join_front (next ∷ lines) rest in
    (more, ap (λ t. line ++ codes "\n" ++ t) e ∙ sym (append_assoc _ _ more))

+-assoc : (a b c : ℕ) → a + b + c ≡ a + (b + c)
+-assoc a b c = omega arith

zero_add : (n : ℕ) → 0 + n ≡ n
zero_add n = omega arith

module _ ⦃platform : Platform⦄ where
  -- The next line does not fit, or there is none.
  abbrev pub IsFull : ℕ → ℕ → List Text → Type 0
  IsFull available used [] = Unit
  IsFull available used (line ∷ lines) = available < used + count_tokens line

  fitting-IsFull :
      (available used : ℕ) (lines : List Text)
      → used ≤ available
      → (rest : List Text) × (lines ≡ fitting available used lines ++ rest)
        × (used + sum_by count_tokens (fitting available used lines) ≤ available)
        × IsFull available (used + sum_by count_tokens (fitting available used lines)) rest
  unfolding fitting
  fitting-IsFull available used [] h = ([], refl, omega (arith, h), tt)
  fitting-IsFull available used (line ∷ lines) h =
      elim (Bool-cases (ltb available (used + count_tokens line))) [
        | inl e ↦ rw e (line ∷ lines, refl, omega (arith, h), ground (arith, e))
        | inr e ↦
            let (rest, same, fits, full) =
              fitting-IsFull available (used + count_tokens line) lines (not-ltb→le _ _ e) in
            let sum =
              +-assoc used (count_tokens line)
                (sum_by count_tokens (fitting available (used + count_tokens line) lines)) in
            rw e (
              rest,
              ap (◌∷◌ line) same,
              subst (λ n. n ≤ available) sum fits,
              subst (λ n. IsFull available n rest) sum full,
            )
      ]

  fitting-All :
      (available used : ℕ) (lines : List Text)
      → used ≤ available
      → All (λ line. count_tokens line ≡ 0) lines
      → fitting available used lines ≡ lines
  unfolding fitting
  fitting-All available used [] h none_counts = refl
  fitting-All available used (line ∷ lines) h none_counts =
      elim (Bool-cases (ltb available (used + count_tokens line))) [
        | inl e ↦ absurd (let z = none_counts.0 in ground (arith, h, e, z))
        | inr e ↦ rw e (
            ap (◌∷◌ line) (
              fitting-All available (used + count_tokens line) lines (not-ltb→le _ _ e)
                none_counts.1))
      ]

  pub compress-IsCut :
      (config : ContextConfig) (context : Text)
      → ((compress config context ≡ context)
          × ((config.enable_compression ≡ false)
              ⊎ (count_tokens context ≤ get_available_tokens config)))
        ⊎ ((lines : List Text) × (rest : List Text) × (compress config context
              ≡ join (codes "\n") lines)
            × (context ≡ join (codes "\n") (lines ++ rest))
            × (sum_by count_tokens lines ≤ get_available_tokens config)
            × IsFull (get_available_tokens config) (sum_by count_tokens lines) rest)
  unfolding compress get_available_tokens
  compress-IsCut config context = elim (Bool-cases config.enable_compression) [
    | inr off ↦ rw off (inl (refl, inl refl))
    | inl on ↦ elim (Bool-cases (leb (count_tokens context) (get_available_tokens config))) [
      | inl e ↦ rw (e, on) (inl (refl, inr (leb→le _ _ e)))
      | inr e ↦
          let (rest, same, fits, full) =
            fitting-IsFull (get_available_tokens config) 0 (split_lines context) (omega arith) in
          let n =
            sum_by count_tokens (fitting (get_available_tokens config) 0 (split_lines context)) in
          rw (e, on)
            (inr (
              fitting (get_available_tokens config) 0 (split_lines context),
              rest,
              refl,
              sym (join-split_lines context) ∙ ap (join (codes "\n")) same,
              subst (λ k. k ≤ get_available_tokens config) (zero_add n) fits,
              subst (λ k. IsFull (get_available_tokens config) k rest) (zero_add n) full,
            ))
    ]
  ]

  -- Compression only cuts off the end of a text.
  pub compress-prefix :
      (config : ContextConfig) (context : Text)
      → (more : Text) × (context ≡ compress config context ++ more)
  compress-prefix config context = elim (compress-IsCut config context) [
    | inl (same, _) ↦ ([], sym same ∙ sym (append-nil _))
    | inr (lines, rest, result, whole, _, _) ↦
        let (more, e) = join_front lines rest in
        (more, whole ∙ e ∙ ap (λ t. t ++ more) (sym result))
  ]

  -- Line breaks are not counted: a text whose lines come to no token each is never cut, whatever the
  -- number of its lines.
  pub compress_keeps_short_lines :
      (config : ContextConfig) (context : Text)
      → All (λ line. count_tokens line ≡ 0) (split_lines context)
      → compress config context ≡ context
  unfolding compress get_available_tokens
  compress_keeps_short_lines config context none_counts =
      elim (Bool-cases config.enable_compression) [
        | inr off ↦ rw off refl
        | inl on ↦ elim (Bool-cases (leb (count_tokens context) (get_available_tokens config))) [
          | inl e ↦ rw (e, on) refl
          | inr e ↦
              rw (e, on)
                (ap (join (codes "\n")) (
                    fitting-All (get_available_tokens config) 0 (split_lines context) (omega arith)
                      none_counts)
                  ∙ join-split_lines context)
        ]
      ]
