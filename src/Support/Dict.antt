-- ===== src/Support/Dict.antt =====
-- Python's `dict` with string keys, in insertion order: a write to a present key keeps its place.
use mathlib.Core.Path.{◌≡◌, refl}
use mathlib.Core.Bool.{Bool, true, false}
use mathlib.Core.Option.{Option, none, some}
use mathlib.Core.Option
use mathlib.Core.List.{List, [], ◌∷◌, ◌++◌, map}
use Prim.Native.String.{String}
use native.Mathlib.Omega.{arith}
use text.Mathlib.Text.{◌==◌}
use text.Mathlib.TextEquality.{eq_iff}
use tokenlyfy_v.Support.Tests.{if◌then◌else◌}
use tokenlyfy_v.Support.Names.{contains}

abbrev pub Dict {ℓ} : Type ℓ → Type ℓ
Dict V = List (String × V)

module _ {ℓ} {V : Type ℓ} where
  -- `d.get(k)`
  unfoldable pub get : String → Dict V → Option V
  get k [] = none
  get k ((j, v) ∷ d) = if j == k then some v else get k d

  -- `k in d`
  unfoldable pub has : String → Dict V → Bool
  has k [] = false
  has k ((j, v) ∷ d) = if j == k then true else has k d

  -- `d[k] = v`
  unfoldable pub put : String → V → Dict V → Dict V
  put k v [] = (k, v) ∷ []
  put k v ((j, w) ∷ d) = if j == k then (j, v) ∷ d else (j, w) ∷ put k v d

  -- `del d[k]` of a present key; nothing for an absent one
  unfoldable pub delete : String → Dict V → Dict V
  delete k [] = []
  delete k ((j, v) ∷ d) = if j == k then delete k d else (j, v) ∷ delete k d

  -- `list(d.keys())` and `list(d.values())`
  unfoldable pub keys : Dict V → List String
  keys = map (λ e. e.0)

  unfoldable pub values : Dict V → List V
  values = map (λ e. e.1)

  -- `for k in d: d[k] = f(d[k])`
  unfoldable pub map_values : (V → V) → Dict V → Dict V
  map_values f = map (λ e. (e.0, f e.1))

module _ {ℓ} {V : Type ℓ} where
  pub get-put :
      (k j : String) (v : V) (d : Dict V) → get j (put k v d) ≡ (if k == j then some v else get j d)
  unfolding get put
  get-put k j v [] = refl
  get-put k j v ((i, w) ∷ d) = ground (arith, eq_iff k j, eq_iff i k, eq_iff i j, get-put k j v d)

  pub has-put :
      (k j : String) (v : V) (d : Dict V) → has j (put k v d) ≡ (if k == j then true else has j d)
  unfolding has put
  has-put k j v [] = refl
  has-put k j v ((i, w) ∷ d) = ground (arith, eq_iff k j, eq_iff i k, eq_iff i j, has-put k j v d)

  pub get-delete :
      (k j : String) (d : Dict V) → get j (delete k d) ≡ (if k == j then none else get j d)
  unfolding get delete
  get-delete k j [] = ground arith
  get-delete k j ((i, w) ∷ d) = ground (arith, eq_iff k j, eq_iff i k, eq_iff i j, get-delete k j d)

  pub has-delete :
      (k j : String) (d : Dict V) → has j (delete k d) ≡ (if k == j then false else has j d)
  unfolding has delete
  has-delete k j [] = ground arith
  has-delete k j ((i, w) ∷ d) = ground (arith, eq_iff k j, eq_iff i k, eq_iff i j, has-delete k j d)

  pub get-map_values :
      (f : V → V) (k : String) (d : Dict V) → get k (map_values f d) ≡ Option.map f (get k d)
  unfolding get map_values
  get-map_values f k [] = refl
  get-map_values f k ((i, w) ∷ d) = ground (arith, get-map_values f k d)

  pub has-map_values : (f : V → V) (k : String) (d : Dict V) → has k (map_values f d) ≡ has k d
  unfolding has map_values
  has-map_values f k [] = refl
  has-map_values f k ((i, w) ∷ d) = ground (arith, has-map_values f k d)

  -- A key is present exactly when `get` finds a value.
  pub has-eq-is_some :
      (k : String) (d : Dict V) → has k d ≡ elim (get k d) [ none ↦ false | some _ ↦ true ]
  unfolding has get
  has-eq-is_some k [] = refl
  has-eq-is_some k ((i, w) ∷ d) = ground (arith, has-eq-is_some k d)

  pub get_of_has : (k : String) (d : Dict V) → has k d ≡ true → (v : V) × (get k d ≡ some v)
  get_of_has k d h = ground (arith, has-eq-is_some k d)

  pub contains-keys : (k : String) (d : Dict V) → contains k (keys d) ≡ has k d
  unfolding contains keys has
  contains-keys k [] = refl
  contains-keys k ((i, w) ∷ d) = ground (arith, contains-keys k d)

module _ {ℓ} {V : Type ℓ} where
  pub keys-put_absent :
      (k : String) (v : V) (d : Dict V) → has k d ≡ false → keys (put k v d) ≡ keys d ++ k ∷ []
  unfolding keys put has
  keys-put_absent k v [] h = refl
  keys-put_absent k v ((i, w) ∷ d) h = ground (arith, keys-put_absent k v d)

  pub keys-put_present :
      (k : String) (v : V) (d : Dict V) → has k d ≡ true → keys (put k v d) ≡ keys d
  unfolding keys put has
  keys-put_present k v [] h = cc
  keys-put_present k v ((i, w) ∷ d) h = ground (arith, keys-put_present k v d)

pub ruleset dict_laws = (get-put, has-put, get-delete, has-delete, get-map_values, has-map_values)
