-- ===== src/Memory/Manager/Dispatch.antt =====
-- Which memory a call of memory/manager.py reaches.
use tokenlyfy_v.Support.{
  String, Option, [], ◌∷◌, ◌++◌, Bool, true, false, ◌≡◌, ◌⊎◌, refl, ap, Bool-cases, inl, inr, All,
}
use tokenlyfy_v.Support.Dict.{Dict}
use tokenlyfy_v.Support.Text.{Text}
use tokenlyfy_v.Support.Outcome.{Outcome, ok}
use tokenlyfy_v.Support.Action.{Action}
use tokenlyfy_v.Memory.Base.{Environment}
use tokenlyfy_v.Memory.Manager.{MemoryClass, on_first, Stores, update_memory, remove_memory}

module _ {ℓ} {S : Type ℓ} (test : S → Bool) (method : Action S Bool) where
  -- The first object that passes the test, and what the method makes of it.
  pub record Reaches (s : Dict S) (out : Outcome Bool × Dict S) : Type ℓ where
    pub earlier : Dict S
    pub name : String
    pub store : S
    pub later : Dict S
    pub whole : s ≡ earlier ++ (name, store) ∷ later
    pub passed_over : All (λ (e : String × S). test e.1 ≡ false) earlier
    pub passes : test store ≡ true
    pub answer : out ≡ ((method store).0, earlier ++ (name, (method store).1) ∷ later)

  -- A call reaches the first object that passes, or none does and nothing happens.
  abbrev pub Dispatches : Dict S → Outcome Bool × Dict S → Type ℓ
  Dispatches s out =
      (All (λ (e : String × S). test e.1 ≡ false) s × (out ≡ (ok false, s))) ⊎ Reaches s out

  pub on_first-Dispatches : (s : Dict S) → Dispatches s (on_first test method s)
  unfolding on_first
  on_first-Dispatches [] = inl (tt, refl)
  on_first-Dispatches ((n, store) ∷ rest) = elim (Bool-cases (test store)) [
    | inl e ↦ inr (record {
      earlier = [];
      name = n;
      store = store;
      later = rest;
      whole = refl;
      passed_over = tt;
      passes = e;
      answer = rw (on_first, e) refl;
    })
    | inr e ↦ elim (on_first-Dispatches rest) [
      | inl (none_pass, eq) ↦ inl ((e, none_pass), rw (on_first, e, eq) refl)
      | inr r ↦ inr (record {
        earlier = (n, store) ∷ r.earlier;
        name = r.name;
        store = r.store;
        later = r.later;
        whole = ap (◌∷◌ (n, store)) r.whole;
        passed_over = (e, r.passed_over);
        passes = r.passes;
        answer = rw (on_first, e, r.answer) refl;
      })
    ]
  ]

module _ ⦃env : Environment⦄ ⦃kind : MemoryClass⦄ where
  open env use {Float, Value}
  open kind use {Store, update, remove, has_memory}

  -- `remove_memory` calls `remove` of the first memory that has the identifier, and changes no other;
  -- where none has it, it returns false and changes nothing.
  pub remove_memory-Dispatches :
      (id : String) (s : Stores) → Dispatches (has_memory id) (remove id) s (remove_memory id s)
  unfolding remove_memory
  remove_memory-Dispatches id s = on_first-Dispatches (has_memory id) (remove id) s

  -- `update_memory` calls `update` of the first memory that has the identifier, and changes no other;
  -- where none has it, it returns false and changes nothing.
  pub update_memory-Dispatches :
      (id : String) (content : Option Text) (importance : Option Float)
      (metadata : Option (Dict Value)) (s : Stores)
      → Dispatches
          (has_memory id)
          (update id content importance metadata)
          s
          (update_memory id content importance metadata s)
  unfolding update_memory
  update_memory-Dispatches id content importance metadata s =
      on_first-Dispatches (has_memory id) (update id content importance metadata) s
