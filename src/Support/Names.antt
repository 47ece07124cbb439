-- ===== src/Support/Names.antt =====
-- A Python list of strings that is used as a set of names: `in`, `append` and `list.remove`.
use mathlib.Core.Path.{◌≡◌, refl}
use mathlib.Core.Bool.{Bool, true, false}
use mathlib.Core.List.{List, [], ◌∷◌, ◌++◌}
use Prim.Native.String.{String}
use native.Mathlib.Omega.{arith}
use text.Mathlib.Text.{◌==◌}
use text.Mathlib.TextEquality.{eq_iff}
use tokenlyfy_v.Support.Tests.{if◌then◌else◌}

-- `name in names`
unfoldable pub contains : String → List String → Bool
contains n [] = false
contains n (m ∷ names) = if m == n then true else contains n names

-- `names.remove(name)`: the first occurrence. (A missing name raises; callers test first.)
unfoldable pub remove_first : String → List String → List String
remove_first n [] = []
remove_first n (m ∷ names) = if m == n then names else m ∷ remove_first n names

-- No name stands twice.
abbrev pub IsDistinct : List String → Type 0
IsDistinct [] = Unit
IsDistinct (n ∷ names) = (contains n names ≡ false) × IsDistinct names

pub contains-snoc :
    (n m : String) (names : List String)
    → contains n (names ++ m ∷ []) ≡ (if m == n then true else contains n names)
unfolding contains
contains-snoc n m [] = refl
contains-snoc n m (k ∷ names) = ground (arith, contains-snoc n m names)

pub contains-append :
    (n : String) (xs ys : List String)
    → contains n (xs ++ ys) ≡ (if contains n xs then true else contains n ys)
unfolding contains
contains-append n [] ys = refl
contains-append n (x ∷ xs) ys = ground (arith, contains-append n xs ys)

pub IsDistinct-snoc :
    (m : String) (names : List String)
    → contains m names ≡ false
    → IsDistinct names
    → IsDistinct (names ++ m ∷ [])
unfolding contains
IsDistinct-snoc m [] h d = (refl, tt)
IsDistinct-snoc m (k ∷ names) h d = (
  rw contains-snoc (ground (arith, eq_iff k m, eq_iff m k)),
  IsDistinct-snoc m names (ground arith) d.1,
)

pub contains-remove_first_ne :
    (n m : String) (names : List String)
    → (n == m) ≡ false
    → contains m (remove_first n names) ≡ contains m names
unfolding contains remove_first
contains-remove_first_ne n m [] h = refl
contains-remove_first_ne n m (k ∷ names) h =
    ground (arith, contains-remove_first_ne n m names, eq_iff k n, eq_iff k m, eq_iff n m)

pub contains-remove_first_self :
    (n : String) (names : List String)
    → IsDistinct names
    → contains n (remove_first n names) ≡ false
unfolding contains remove_first
contains-remove_first_self n [] d = refl
contains-remove_first_self n (k ∷ names) d =
    ground (arith, contains-remove_first_self n names, eq_iff k n)

pub remove_first-absent :
    (n : String) (names : List String) → contains n names ≡ false → remove_first n names ≡ names
unfolding contains remove_first
remove_first-absent n [] h = refl
remove_first-absent n (k ∷ names) h = ground (arith, remove_first-absent n names)

contains-remove_first_sub :
    (n m : String) (names : List String)
    → contains m names ≡ false
    → contains m (remove_first n names) ≡ false
unfolding contains remove_first
contains-remove_first_sub n m [] h = refl
contains-remove_first_sub n m (k ∷ names) h = ground (arith, contains-remove_first_sub n m names)

pub IsDistinct-remove_first :
    (n : String) (names : List String) → IsDistinct names → IsDistinct (remove_first n names)
unfolding remove_first
IsDistinct-remove_first n [] d = tt
IsDistinct-remove_first n (k ∷ names) d =
    ground (arith, IsDistinct-remove_first n names, contains-remove_first_sub n k names)
