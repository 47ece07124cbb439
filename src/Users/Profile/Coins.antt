-- ===== src/Users/Profile/Coins.antt =====
-- The coins that assistants/user_profile.py keeps for a user.
use tokenlyfy_v.Support.{
  ℕ, zero, suc, ◌≤◌, List, [], ◌∷◌, ◌++◌, false, ◌≡◌, refl, sym, ap, ◌∙◌, length, take, length-take,
  Bool-cases, inl, inr, arith,
}
use mathlib.Core.List.{append-nil}
use tokenlyfy_v.Support.Text.{Text}
use tokenlyfy_v.Users.Profile.{member, unique_from, with_coins}

-- No text stands twice, and none is among those seen before.
abbrev pub IsUnique : List Text → List Text → Type 0
IsUnique seen [] = Unit
IsUnique seen (t ∷ texts) = (member t seen ≡ false) × IsUnique (t ∷ seen) texts

unique_from-IsUnique : (seen texts : List Text) → IsUnique seen (unique_from seen texts)
unfolding unique_from
unique_from-IsUnique seen [] = tt
unique_from-IsUnique seen (t ∷ texts) = elim (Bool-cases (member t seen)) [
  | inl e ↦ rw (unique_from, e) (unique_from-IsUnique seen texts)
  | inr e ↦ rw (unique_from, e) (e, unique_from-IsUnique (t ∷ seen) texts)
]

unique_from-append :
    (seen old new : List Text)
    → IsUnique seen old
    → (more : List Text) × (unique_from seen (old ++ new) ≡ old ++ more)
unfolding unique_from
unique_from-append seen [] new h = (_, refl)
unique_from-append seen (t ∷ old) new h =
    let (more, e) = unique_from-append (t ∷ seen) old new h.1 in
    (more, rw (unique_from, h.0) (ap (◌∷◌ t) e))

take-IsUnique :
    (n : ℕ) (seen texts : List Text) → IsUnique seen texts → IsUnique seen (take n texts)
take-IsUnique zero seen texts h = tt
take-IsUnique (suc n) seen [] h = tt
take-IsUnique (suc n) seen (t ∷ texts) h = (h.0, take-IsUnique n (t ∷ seen) texts h.1)

take-append :
    (n : ℕ) (xs ys : List Text)
    → length xs ≤ n
    → (more : List Text) × (take n (xs ++ ys) ≡ xs ++ more)
take-append n [] ys h = (_, refl)
take-append zero (x ∷ xs) ys h = absurd (omega arith)
take-append (suc n) (x ∷ xs) ys h =
    let (more, e) = take-append n xs ys (omega (arith, h)) in (more, ap (◌∷◌ x) e)

-- Ten coins at most, each once, stay ten coins at most, each once, and the old ones come first: a new
-- coin is taken in only while there is room.
pub with_coins-IsUnique :
    (old new : List Text)
    → IsUnique [] old
    → length old ≤ 10
    → (more : List Text) × (with_coins old new ≡ old ++ more)
      × IsUnique [] (with_coins old new)
      × (length (with_coins old new) ≤ 10)
unfolding with_coins
with_coins-IsUnique old [] h few = ([], sym (append-nil old), h, few)
with_coins-IsUnique old (c ∷ new) h few =
    let (all, e) = unique_from-append [] old (c ∷ new) h in
    let (more, e') = take-append 10 old all few in
    (
      more,
      ap (take 10) e ∙ e',
      take-IsUnique 10 [] _ (unique_from-IsUnique [] (old ++ c ∷ new)),
      omega (arith, length-take 10 (unique_from [] (old ++ c ∷ new))),
    )
