-- ===== src/Support/Find.antt =====
-- `text.find(sub)` and `sub in text`, on lists of code points.
use mathlib.Core.List.{append_assoc}
use mathlib.Core.Path.{◌≡◌, refl, sym, ap, ◌∙◌}
use mathlib.Core.Logic.{inl, inr}
use mathlib.Core.Bool.{Bool, true, false}
use mathlib.Core.Option.{Option, none, some}
use mathlib.Core.List.{[], ◌∷◌, ◌++◌}
use Prim.Native.Char.{code}
use Prim.Native.Nat.{ℕ, suc, ◌+◌, ◌≤◌}
use Prim.Native.String.{String}
use native.Mathlib.Omega.{arith}
use tokenlyfy_v.Support.Tests.{eqb, if◌then◌else◌, Bool-cases, Option-cases}
use tokenlyfy_v.Support.Lists.{length, drop, length-append}
use tokenlyfy_v.Support.Text.{Text}

-- The code points of a text in the source.
abbrev pub codes : String → Text
codes String.[] = []
codes (String.◌∷◌ c s) = code c ∷ codes s

-- `text.startswith(sub)`
unfoldable pub starts_with : Text → Text → Bool
starts_with [] text = true
starts_with (d ∷ sub) [] = false
starts_with (d ∷ sub) (c ∷ text) = if eqb d c then starts_with sub text else false

-- `text.find(sub)`, where `none` is -1
unfoldable pub find : Text → Text → Option ℕ
find sub [] = if starts_with sub [] then some 0 else none
find sub (c ∷ text) =
    if starts_with sub (c ∷ text)
    then some 0
    else elim (find sub text) [ none ↦ none | some i ↦ some (suc i) ]

-- `text.find(sub, start)`
unfoldable pub find_from : Text → Text → ℕ → Option ℕ
find_from sub text start = elim (find sub (drop start text)) [
  | none ↦ none
  | some i ↦ some (start + i)
]

-- `sub in text`
unfoldable pub is_in : Text → Text → Bool
is_in sub text = elim (find sub text) [ none ↦ false | some i ↦ true ]

-- What follows a text that is long enough does not decide how it starts.
pub starts_with-append :
    (sub text u : Text)
    → length sub ≤ length text
    → starts_with sub (text ++ u) ≡ starts_with sub text
unfolding starts_with
starts_with-append [] text u h = refl
starts_with-append (d ∷ sub) [] u h = absurd (omega arith)
starts_with-append (d ∷ sub) (c ∷ text) u h = ground (arith, starts_with-append sub text u)

pub starts_with_fits : (sub text : Text) → starts_with sub text ≡ true → length sub ≤ length text
unfolding starts_with
starts_with_fits [] text h = omega arith
starts_with_fits (d ∷ sub) [] h = cc
starts_with_fits (d ∷ sub) (c ∷ text) h = ground (arith, starts_with_fits sub text)

-- An occurrence lies inside the text.
pub find_fits : (sub text : Text) (i : ℕ) → find sub text ≡ some i → i + length sub ≤ length text
unfolding find
find_fits sub [] i h = ground (arith, starts_with_fits sub [])
find_fits sub (c ∷ text) i h = elim (Option-cases (find sub text)) [
  | inl e ↦ ground (arith, starts_with_fits sub (c ∷ text))
  | inr (j, e) ↦ ground (arith, starts_with_fits sub (c ∷ text), find_fits sub text j e)
]

-- An occurrence is found at the same place however the text goes on.
pub find-append :
    (sub text u : Text) (i : ℕ) → find sub text ≡ some i → find sub (text ++ u) ≡ some i
unfolding find starts_with
find-append [] [] u i h = find_nothing u ∙ h
  where
    find_nothing : (u : Text) → find [] u ≡ some 0
    find_nothing [] = refl
    find_nothing (c ∷ u) = refl
find-append (d ∷ sub) [] u i h = cc
find-append sub (c ∷ text) u i h = elim (Option-cases (find sub text)) [
  | inl e ↦ ground (arith, starts_with_fits sub (c ∷ text), starts_with-append sub (c ∷ text) u)
  | inr (j, e) ↦ ground (
    arith,
    starts_with_fits sub (c ∷ text),
    starts_with-append sub (c ∷ text) u,
    find_fits sub text j e,
    find-append sub text u j e,
  )
]

-- Where no occurrence starts in `a ++ b`, and `b` is at least as long as the text sought without its
-- first character, the search in a longer text begins at `b`.
pub find-skip :
    (sub a b u : Text)
    → find sub (a ++ b) ≡ none
    → length sub ≤ suc (length b)
    → find sub (a ++ (b ++ u))
      ≡ (elim (find sub (b ++ u)) [ none ↦ none | some i ↦ some (length a + i) ])
unfolding find
find-skip sub [] b u h k = elim (Option-cases (find sub (b ++ u))) [
  | inl e ↦ rw e refl
  | inr (i, e) ↦ rw e (ap some (omega arith))
]
find-skip sub (c ∷ a) b u h k = elim (Option-cases (find sub (b ++ u))) [
  | inl e ↦ ground (arith, e, same_start, find-skip sub a b u)
  | inr (i, e) ↦ ground (arith, e, same_start, find-skip sub a b u)
]
  where
    same_start : starts_with sub (c ∷ (a ++ (b ++ u))) ≡ starts_with sub (c ∷ (a ++ b))
    same_start =
        ap (λ z. starts_with sub (c ∷ z)) (sym (append_assoc a b u))
        ∙ starts_with-append sub (c ∷ (a ++ b)) u (omega (arith, length-append a b))

-- An occurrence is the first thing behind what stands before it.
pub find-drop : (sub text : Text) (i : ℕ) → find sub text ≡ some i → find sub (drop i text) ≡ some 0
unfolding find
find-drop sub [] i h = elim (Bool-cases (starts_with sub [])) [
  | inl e ↦ let zeroth : 0 ≡ i = ground (arith, h, e) in rw (← zeroth) (rw e refl)
  | inr e ↦ absurd (ground (arith, h, e))
]
find-drop sub (c ∷ text) i h = elim (Bool-cases (starts_with sub (c ∷ text))) [
  | inl e ↦ let zeroth : 0 ≡ i = ground (arith, h, e) in rw (← zeroth) (rw e refl)
  | inr e ↦ elim (Option-cases (find sub text)) [
    | inl f ↦ absurd (ground (arith, h, e, f))
    | inr (j, f) ↦
        let next : suc j ≡ i = ground (arith, h, e, f) in rw (← next) (find-drop sub text j f)
  ]
]

-- An occurrence that ends inside a text is found without what follows.
pub find-restrict :
    (sub text u : Text) (i : ℕ)
    → find sub (text ++ u) ≡ some i
    → i + length sub ≤ length text
    → find sub text ≡ some i
unfolding find starts_with
find-restrict sub [] u i h k = elim (Bool-cases (starts_with sub [])) [
  | inl e ↦ rw e (ap some (omega arith))
  | inr e ↦ absurd (ground (arith, e, nothing sub (omega arith)))
]
  where
    nothing : (sub : Text) → length sub ≤ 0 → starts_with sub [] ≡ true
    nothing [] h = refl
    nothing (d ∷ sub) h = absurd (omega arith)
find-restrict sub (c ∷ text) u i h k = elim (Option-cases (find sub (text ++ u))) [
  | inl e ↦ ground (arith, h, e, starts_with-append sub (c ∷ text) u)
  | inr (j, e) ↦
      ground (arith, h, e, starts_with-append sub (c ∷ text) u, find-restrict sub text u j e)
]
