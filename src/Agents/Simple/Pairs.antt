-- ===== src/Agents/Simple/Pairs.antt =====
-- The parameters that agents/simple_agent.py reads from pairs of a key and a value.

use tokenlyfy_v.Support.{
  ℕ, List, [], ◌∷◌, ◌++◌, true, ◌≡◌, refl, ap, ◌∙◌, eqb, map, Bool-cases, inl, inr, All, arith,
}
use tokenlyfy_v.Support.Text.{Text, strip}
use tokenlyfy_v.Agents.PlanSolve.Parsing.{IsFree, until_first}
use tokenlyfy_v.Agents.Simple.{Kit, put, split_on, put_pairs}

split_some :
    (d : ℕ) (t : Text) → (piece : Text) × (pieces : List Text) × (split_on d t ≡ piece ∷ pieces)
unfolding split_on
split_some d [] = ([], [], refl)
split_some d (c ∷ t) =
    let (piece, pieces, e) = split_some d t in
    elim (Bool-cases (eqb c d)) [
      | inl same ↦ rw (split_on, e, same) ([], piece ∷ pieces, refl)
      | inr other ↦ rw (split_on, e, other) (c ∷ piece, pieces, refl)
    ]

split_on-first :
    (d : ℕ) (a rest : Text) → IsFree d a → split_on d (a ++ d ∷ rest) ≡ a ∷ split_on d rest
unfolding split_on
split_on-first d [] rest free =
    let same : eqb d d ≡ true = ground arith in
    let (piece, pieces, e) = split_some d rest in rw (split_on, e, same) refl
split_on-first d (c ∷ a) rest free = rw (split_on, split_on-first d a rest free.1, free.0) refl

split_on-last : (d : ℕ) (a : Text) → IsFree d a → split_on d a ≡ a ∷ []
unfolding split_on
split_on-last d [] free = refl
split_on-last d (c ∷ a) free = rw (split_on, split_on-last d a free.1, free.0) refl

pub record Pair : Type 0 where
  pub key : Text
  pub value : Text

abbrev pub pair_text : Pair → Text
pair_text p = p.key ++ b'=' ∷ p.value

-- The pairs with a comma between them
unfoldable pub render : Pair → List Pair → Text
render p [] = pair_text p
render p (q ∷ pairs) = pair_text p ++ b',' ∷ render q pairs

abbrev pub IsPair : Pair → Type 0
IsPair p = IsFree b'=' p.key × IsFree b',' (pair_text p)

split_on-render :
    (p : Pair) (pairs : List Pair)
    → IsPair p
    → All IsPair pairs
    → split_on b',' (render p pairs) ≡ map pair_text (p ∷ pairs)
unfolding render
split_on-render p [] h k = split_on-last b',' (pair_text p) h.1
split_on-render p (q ∷ pairs) h k =
    split_on-first b',' (pair_text p) (render q pairs) h.1
    ∙ ap (◌∷◌ (pair_text p)) (split_on-render q pairs k.0 k.1)

module _ ⦃kit : Kit⦄ where
  open kit use {Value, text}

  -- Every pair is put under its key, the last one of a key wins.
  unfoldable pub put_all : List Pair → List (Text × Value) → List (Text × Value)
  put_all [] d = d
  put_all (p ∷ pairs) d = put_all pairs (put (strip p.key) (text (strip p.value)) d)

  put_pairs_fold :
      (pairs : List Pair) (d : List (Text × Value))
      → All IsPair pairs
      → put_pairs (map pair_text pairs) d ≡ put_all pairs d
  unfolding put_pairs put_all
  put_pairs_fold [] d h = refl
  put_pairs_fold (p ∷ pairs) d h =
      rw (put_pairs, until_first b'=' p.key p.value h.0.0)
        (put_pairs_fold pairs (put (strip p.key) (text (strip p.value)) d) h.1)

  -- Pairs without commas, and with keys without equals signs, are all read from the text that puts commas
  -- between them, each value stripped and under its stripped key; the last of a key wins.
  pub put_pairs-render :
      (p : Pair) (pairs : List Pair) (d : List (Text × Value))
      → IsPair p
      → All IsPair pairs
      → put_pairs (split_on b',' (render p pairs)) d ≡ put_all (p ∷ pairs) d
  put_pairs-render p pairs d h k =
      ap (λ pieces. put_pairs pieces d) (split_on-render p pairs h k)
      ∙ put_pairs_fold (p ∷ pairs) d (h, k)
