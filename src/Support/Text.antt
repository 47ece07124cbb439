-- ===== src/Support/Text.antt =====
-- Python's `str` as the list of its code points, where the program looks into it: slices, equality,
-- `join`, `strip` and `split` at white space.
use mathlib.Core.Path.{◌≡◌, refl}
use mathlib.Core.Bool.{Bool, true, false, ◌&&◌, ◌||◌}
use mathlib.Core.List.{List, [], ◌∷◌, ◌++◌, reverse, reverse_aux, reverse-reverse}
use Prim.Native.Nat.{ℕ, ◌+◌}
use native.Mathlib.Omega.{arith}
use tokenlyfy_v.Support.Tests.{eqb, leb, if◌then◌else◌}
use tokenlyfy_v.Support.Lists.{take, drop, All}

abbrev pub Text : Type 0
Text = List ℕ

-- `text[i:i + n]`
abbrev pub slice : Text → ℕ → ℕ → Text
slice text i n = take n (drop i text)

unfoldable pub same : Text → Text → Bool
same [] [] = true
same [] (d ∷ t) = false
same (c ∷ s) [] = false
same (c ∷ s) (d ∷ t) = if eqb c d then same s t else false

-- `"\n".join(parts)`
unfoldable pub join_lines : List Text → Text
join_lines [] = []
join_lines (p ∷ []) = p
join_lines (p ∷ q ∷ parts) = p ++ b'\n' ∷ join_lines (q ∷ parts)

-- `c.isspace()`
unfoldable pub is_space : ℕ → Bool
is_space c =
    (leb 9 c && leb c 13)
    || (leb 28 c && leb c 32)
    || eqb c 0x85
    || eqb c 0xa0
    || eqb c 0x1680
    || (leb 0x2000 c && leb c 0x200a)
    || (leb 0x2028 c && leb c 0x2029)
    || eqb c 0x202f
    || eqb c 0x205f
    || eqb c 0x3000

strip_left : Text → Text
strip_left [] = []
strip_left (c ∷ s) = if is_space c then strip_left s else c ∷ s

-- `text.strip()`
unfoldable pub strip : Text → Text
unfolding is_space strip_left
strip text = reverse (strip_left (reverse (strip_left text)))

-- `len(text.split())`: a word starts where a character follows white space or the beginning.
unfoldable pub words_from : Bool → Text → ℕ
words_from inside [] = 0
words_from inside (c ∷ s) =
    (if is_space c then 0 else if inside then 0 else 1)
    + words_from (if is_space c then false else true) s

unfoldable pub count_words : Text → ℕ
unfolding is_space words_from
count_words text = words_from false text

-- `text.split()`: a word ends where white space or the end follows.
unfoldable pub split_at_space : Text → Text → List Text
split_at_space [] [] = []
split_at_space (d ∷ word) [] = (d ∷ word) ∷ []
split_at_space [] (c ∷ s) = split_at_space (if is_space c then [] else c ∷ []) s
split_at_space (d ∷ word) (c ∷ s) =
    let rest = split_at_space (if is_space c then [] else d ∷ word ++ c ∷ []) s in
    if is_space c then (d ∷ word) ∷ rest else rest

unfoldable pub split : Text → List Text
unfolding is_space split_at_space
split text = split_at_space [] text

pub same→≡ : (s t : Text) → same s t ≡ true → s ≡ t
unfolding same
same→≡ [] [] h = refl
same→≡ [] (d ∷ t) h = cc
same→≡ (c ∷ s) [] h = cc
same→≡ (c ∷ s) (d ∷ t) h = ground (arith, same→≡ s t)

-- A text without white space is its own `strip()`.
strip_left_solid : (s : Text) → All (λ c. is_space c ≡ false) s → strip_left s ≡ s
unfolding strip_left
strip_left_solid [] h = refl
strip_left_solid (c ∷ s) h = rw h.0 refl

All-reverse_aux :
    (s r : Text)
    → All (λ c. is_space c ≡ false) s
    → All (λ c. is_space c ≡ false) r
    → All (λ c. is_space c ≡ false) (reverse_aux s r)
All-reverse_aux [] r h k = k
All-reverse_aux (c ∷ s) r h k = All-reverse_aux s (c ∷ r) h.1 (h.0, k)

pub strip_solid : (s : Text) → All (λ c. is_space c ≡ false) s → strip s ≡ s
unfolding strip
strip_solid s h =
    rw (strip_left_solid s h, strip_left_solid (reverse s) (All-reverse_aux s [] h tt))
      (reverse-reverse s)
