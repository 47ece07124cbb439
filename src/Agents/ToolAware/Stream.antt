-- ===== src/Agents/ToolAware/Stream.antt =====
-- However a text is cut into chunks, `stream_run` of agents/tool_aware_agent.py makes the same of it.
use mathlib.Core.Path.{subst}
use mathlib.Core.List.{append_assoc, append-nil}
use tokenlyfy_v.Support.{
  ℕ, zero, suc, ◌+◌, ◌-◌, ◌<◌, Option, none, some, List, [], ◌∷◌, ◌++◌, Bool, true, false, ◌≡◌,
  refl, sym, ap, ◌∙◌, length, take, drop, if◌then◌else◌, ltb, eqb, tests, take-append-drop,
  length-take, length-drop, arith, Option-cases, Bool-cases, inl, inr,
}
use tokenlyfy_v.Support.Text.{Text}
use tokenlyfy_v.Support.Find.{find, find-append, find-skip, find-drop, find_fits}
use tokenlyfy_v.Agents.ToolAware.{
  marker, find_tool_call_end, Progress, process_residual, read_stream,
}
use tokenlyfy_v.Agents.ToolAware.Extracts.{
  Extracts, no_call, unclosed, call, Extracts-behind, find_tool_call_end-append,
  find_tool_call_end_fits,
}

-- The segments in one text, as the reader sees them.
abbrev pub joined : List Text → Text
joined [] = []
joined (s ∷ segments) = s ++ joined segments

joined-append : (xs ys : List Text) → joined (xs ++ ys) ≡ joined xs ++ joined ys
joined-append [] ys = refl
joined-append (x ∷ xs) ys =
    ap (◌++◌ x) (joined-append xs ys) ∙ sym (append_assoc x (joined xs) (joined ys))

-- Before the final pass, what was made of the text goes in front of what the rest and all that
-- follows hold; in the final pass it is all that the text holds.
Makes : Bool → Text → Progress → Type 0
Makes false text p =
    (u shown left : Text) (calls : List Text)
    → Extracts (p.residual ++ u) shown calls left
    → Extracts (text ++ u) (joined p.segments ++ shown) (p.tool_call_texts ++ calls) left
Makes true text p = Extracts text (joined p.segments) p.tool_call_texts p.residual

abbrev shift : ℕ → Option ℕ → Option ℕ
shift n found = elim found [ none ↦ none | some i ↦ some (n + i) ]

-- A segment in front of the first call is shown.
Makes-segment :
    (final_pass : Bool) (a text : Text) (p : Progress)
    → find marker (a ++ text) ≡ some (length a)
    → find marker text ≡ some 0
    → Makes final_pass text p
    → Makes final_pass (a ++ text) (record p { segments = a ∷ p.segments })
unfolding Makes
Makes-segment false a text p h k m = λ u shown left calls e.
    rw (append_assoc a text u, append_assoc a (joined p.segments) shown)
      (Extracts-behind a (text ++ u) (joined p.segments ++ shown) left (p.tool_call_texts ++ calls)
        (ap (find marker) (sym (append_assoc a text u))
          ∙ find-append marker (a ++ text) u (length a) h
          ∙ rw (find-append marker text u 0 k) (ap some (omega arith)))
        (m u shown left calls e))
Makes-segment true a text p h k m =
    Extracts-behind a text (joined p.segments) p.residual p.tool_call_texts
      (h ∙ rw k (ap some (omega arith))) m

-- A finished call at the front is taken out.
Makes-call :
    (final_pass : Bool) (this rest : Text) (end : ℕ) (p : Progress)
    → find marker (this ++ rest) ≡ some 0
    → find_tool_call_end (this ++ rest) 0 ≡ some end
    → length this ≡ suc end
    → Makes final_pass rest p
    → Makes final_pass (this ++ rest) (record p { tool_call_texts = this ∷ p.tool_call_texts })
unfolding Makes
Makes-call false this rest end p h e n m = λ u shown left calls x.
    call [] this (rest ++ u) (joined p.segments ++ shown) (p.tool_call_texts ++ calls) end
      (append_assoc this rest u) (find-append marker (this ++ rest) u 0 h)
      (ap (λ z. find_tool_call_end z 0) (sym (append_assoc this rest u))
        ∙ find_tool_call_end-append (this ++ rest) u end e)
      n refl refl (m u shown left calls x)
Makes-call true this rest end p h e n m =
    call [] this rest (joined p.segments) p.tool_call_texts end refl h e n refl refl m

-- An unfinished call is kept back.
Makes-kept :
    (final_pass : Bool) (text : Text)
    → find marker text ≡ some 0
    → find_tool_call_end text 0 ≡ none
    → Makes final_pass text (record { segments = []; tool_call_texts = []; residual = text })
unfolding Makes
Makes-kept false text h e = λ u shown left calls x. x
Makes-kept true text h e = unclosed refl h e refl

joined_taken : (n : ℕ) (s : Text) → joined (if ltb 0 n then take n s ∷ [] else []) ≡ take n s
joined_taken zero s = refl
joined_taken (suc n) s = rw (taken n) (append-nil (take (suc n) s))
  where
    taken : (n : ℕ) → ltb 0 (suc n) ≡ true
    taken n = ground arith

pub take_all : (s : Text) → take (length s) s ≡ s
take_all [] = refl
take_all (c ∷ s) = ap (◌∷◌ c) (take_all s)

drop_all : (s : Text) → drop (length s) s ≡ []
drop_all [] = refl
drop_all (c ∷ s) = drop_all s

-- With no marker in sight, all is shown but what may be the beginning of one.
Makes-plain :
    (final_pass : Bool) (text : Text) (n : ℕ)
    → find marker text ≡ none
    → n ≡ (if final_pass then length text else length text - 10)
    → Makes final_pass text (record {
      segments = if ltb 0 n then take n text ∷ [] else [];
      tool_call_texts = [];
      residual = drop n text;
    })
unfolding Makes
Makes-plain false text zero h size = λ u shown left calls x. x
Makes-plain false text (suc n) h size = λ u shown left calls x.
    let whole = take-append-drop (suc n) text in
    rw joined_taken (
      subst (λ z. Extracts (z ++ u) (take (suc n) text ++ shown) calls left) whole
        (rw (append_assoc (take (suc n) text) (drop (suc n) text) u) (
          Extracts-behind (take (suc n) text) (drop (suc n) text ++ u) shown left calls
            (find-skip marker (take (suc n) text) (drop (suc n) text) u (ap (find marker) whole ∙ h)
              (omega (arith, size, length-drop (suc n) text)))
            x)))
Makes-plain true text n h size =
    rw (size, joined_taken) (no_call h (take_all text) refl (drop_all text))

-- `process_residual` returns, and what it makes of the text is right.
process_residual-Makes :
    (fuel : ℕ) (final_pass : Bool) (text : Text)
    → length text < fuel
    → (p : Progress) × (process_residual fuel final_pass text ≡ some p) × Makes final_pass text p
unfolding process_residual
process_residual-Makes zero final_pass text h = absurd (omega arith)
process_residual-Makes (suc fuel) final_pass text h = elim (Option-cases (find marker text)) [
  | inl e ↦ (_, rw (process_residual, e) refl, Makes-plain final_pass text _ e refl)
  | inr (start, e) ↦
      let fits = find_fits marker text start e in
      elim (Bool-cases (ltb 0 start)) [
        | inl later ↦
            let (p, eq, m) =
              process_residual-Makes fuel final_pass (drop start text)
                (omega (arith, length-drop start text, tests, later)) in
            let whole = take-append-drop start text in
            (
              record p { segments = take start text ∷ p.segments },
              rw (process_residual, e, later, eq) refl,
              subst (λ z. Makes final_pass z (record p { segments = take start text ∷ p.segments }))
                  whole
                  (Makes-segment final_pass (take start text) (drop start text) p
                    (ap (find marker) whole
                      ∙ e
                      ∙ ap some (omega (arith, length-take start text, fits)))
                    (find-drop marker text start e) m),
            )
        | inr first ↦
            let zeroth : find marker text ≡ some 0 = e ∙ ap some (omega (arith, tests, first)) in
            elim (Option-cases (find_tool_call_end text 0)) [
              | inl f ↦
                  (_, rw (process_residual, e, first, f) refl, Makes-kept final_pass text zeroth f)
              | inr (end, f) ↦
                  let (p, eq, m) =
                    process_residual-Makes fuel final_pass (drop (end + 1) text)
                      (omega (arith, length-drop (end + 1) text, fits)) in
                  let whole = take-append-drop (end + 1) text in
                  let this = take (end + 1) text in
                  (
                    record p { tool_call_texts = this ∷ p.tool_call_texts },
                    rw (process_residual, e, first, f, eq) refl,
                    subst
                        (λ z.
                          Makes final_pass z
                            (record p { tool_call_texts = this ∷ p.tool_call_texts }))
                        whole
                        (Makes-call final_pass this (drop (end + 1) text) end p
                          (ap (find marker) whole ∙ zeroth)
                          (ap (λ z. find_tool_call_end z 0) whole ∙ f)
                          (omega
                            (arith, length-take (end + 1) text, find_tool_call_end_fits text end f))
                          m),
                  )
            ]
      ]
]

-- `stream_run` reads every sequence of chunks to its end, and makes of it what the whole text holds:
-- where the chunks are cut, in the middle of a marker or of a call, makes no difference.
pub read_stream-Extracts :
    (chunks : List Text) (residual : Text)
    → (p : Progress) × (read_stream residual chunks ≡ some p)
      × Extracts (residual ++ joined chunks) (joined p.segments) p.tool_call_texts p.residual
unfolding read_stream Makes
read_stream-Extracts [] residual =
    let (p, eq, m) = process_residual-Makes (length residual + 1) true residual (omega arith) in
    (p, eq, rw append-nil m)
read_stream-Extracts (chunk ∷ chunks) residual = elim (Bool-cases (eqb (length chunk) 0)) [
  | inl empty ↦
      let (p, eq, x) = read_stream-Extracts chunks residual in
      (p, rw (read_stream, empty) eq, rw (nothing chunk empty) x)
  | inr some_text ↦
      let text = residual ++ chunk in
      let (p, eq, m) = process_residual-Makes (length text + 1) false text (omega arith) in
      let (q, eq', x) = read_stream-Extracts chunks p.residual in
      (
        record q {
          segments = p.segments ++ q.segments;
          tool_call_texts = p.tool_call_texts ++ q.tool_call_texts;
        },
        rw (read_stream, some_text, eq, eq') refl,
        rw (joined-append, ← append_assoc)
            (m (joined chunks) (joined q.segments) q.residual q.tool_call_texts x),
      )
]
  where
    nothing : (chunk : Text) → eqb (length chunk) 0 ≡ true → chunk ≡ []
    nothing [] h = refl
    nothing (c ∷ chunk) h = absurd (ground (arith, h))
