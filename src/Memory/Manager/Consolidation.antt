-- ===== src/Memory/Manager/Consolidation.antt =====
-- What `consolidate_memories` of memory/manager.py moves, and what it loses.
use tokenlyfy_v.Support.{
  ◌+◌, String, some, List, [], ◌∷◌, true, false, ◌==◌, ◌≡◌, refl, ap, ◌∙◌, if◌then◌else◌, arith,
  Bool-cases, inl, inr, keep, eq_iff, eq_refl,
}
use tokenlyfy_v.Support.Dict
use tokenlyfy_v.Support.Dict.{Dict}
use tokenlyfy_v.Support.Outcome.{ok, raise, Exception}
use tokenlyfy_v.Support.Action.{Action, return, ◌>>=◌}
use tokenlyfy_v.Memory.Base.{MemoryItem, Environment}
use tokenlyfy_v.Memory.Manager.{MemoryClass, on_store, Stores, move_each, consolidate_memories}

module _ {ℓ κ} {S : Type ℓ} {A : Type κ} where
  -- The call of a present object's method, and what the other names then stand for.
  pub on_store_reaches :
      (name : String) (method : Action S A) (s : Dict S) (store : S)
      → Dict.get name s ≡ some store
      → (s' : Dict S) × (on_store name method s ≡ ((method store).0, s'))
        × ((j : String)
            → Dict.get j s' ≡ (if name == j then some (method store).1 else Dict.get j s))
  unfolding on_store Dict.get
  on_store_reaches name method [] store h = cc
  on_store_reaches name method ((n, x) ∷ rest) store h = elim (Bool-cases (n == name)) [
    | inl e ↦
        let same : x ≡ store = ground arith in
        (
          (n, (method store).1) ∷ rest,
          rw (e, same) refl,
          λ j. ground (arith, eq_iff n name, eq_iff n j, eq_iff name j),
        )
    | inr e ↦
        let (s', eq, read) = on_store_reaches name method rest store (ground arith) in
        (
          (n, x) ∷ s',
          rw (on_store, e, eq) refl,
          λ j. ground (arith, read j, eq_iff n name, eq_iff n j, eq_iff name j),
        )
  ]

module _ ⦃env : Environment⦄ ⦃kind : MemoryClass⦄ (from_type to_type : String) where
  open env use {Float, Value}
  open kind use {Store, add, remove, get_all, at_least, boosted}

  -- What the target memory is given.
  abbrev pub promoted : MemoryItem Float Value → MemoryItem Float Value
  promoted m = record m { memory_type = to_type; importance = boosted m.importance }

  pub move_each-missed :
      (m : MemoryItem Float Value) (ms : List (MemoryItem Float Value)) (s s' : Stores)
      → on_store from_type (remove m.id) s ≡ (ok false, s')
      → move_each from_type to_type (m ∷ ms) s ≡ move_each from_type to_type ms s'
  unfolding move_each ◌>>=◌
  move_each-missed m ms s s' h = rw (move_each, ◌>>=◌, h) refl

  pub move_each-raised :
      (m : MemoryItem Float Value) (ms : List (MemoryItem Float Value)) (s s' s'' : Stores)
      (e : Exception)
      → on_store from_type (remove m.id) s ≡ (ok true, s')
      → on_store to_type (add (promoted m)) s' ≡ (raise e, s'')
      → move_each from_type to_type (m ∷ ms) s ≡ (raise e, s'')
  unfolding move_each ◌>>=◌
  move_each-raised m ms s s' s'' e h k = rw (move_each, ◌>>=◌, h, k) refl

  pub move_each-moved :
      (m : MemoryItem Float Value) (ms : List (MemoryItem Float Value)) (s s' s'' : Stores)
      (id : String)
      → on_store from_type (remove m.id) s ≡ (ok true, s')
      → on_store to_type (add (promoted m)) s' ≡ (ok id, s'')
      → move_each from_type to_type (m ∷ ms) s
        ≡ (do count ← move_each from_type to_type ms; return (count + 1)) s''
  unfolding move_each ◌>>=◌
  move_each-moved m ms s s' s'' id h k = rw (move_each, ◌>>=◌, h, k) refl

  -- Where the target memory refuses an item that the source memory has given up, the item is in
  -- neither: `consolidate_memories` raises, and the source stays without it.
  pub consolidate_memories_loses :
      (threshold : Float) (s : Stores) (source source' source'' target : Store)
      (m : MemoryItem Float Value) (ms : List (MemoryItem Float Value)) (e : Exception)
      → (from_type == to_type) ≡ false
      → Dict.get from_type s ≡ some source
      → Dict.get to_type s ≡ some target
      → get_all source ≡ (ok (m ∷ ms), source')
      → at_least m.importance threshold ≡ true
      → remove m.id source' ≡ (ok true, source'')
      → (add (promoted m) target).0 ≡ raise e
      → (s' : Stores) × (consolidate_memories from_type to_type threshold s ≡ (raise e, s'))
        × (Dict.get from_type s' ≡ some source'')
        × (Dict.get to_type s' ≡ some (add (promoted m) target).1)
  unfolding consolidate_memories ◌>>=◌ keep
  consolidate_memories_loses threshold s source source' source'' target m ms e apart f t all high
        gone refused =
      let (s₁, eq₁, read₁) = on_store_reaches from_type get_all s source f in
      let (s₂, eq₂, read₂) =
        on_store_reaches from_type (remove m.id) s₁ source'
          (read₁ from_type ∙ rw (eq_refl from_type, all) refl) in
      let (s₃, eq₃, read₃) =
        on_store_reaches to_type (add (promoted m)) s₂ target
          (read₂ to_type ∙ rw apart (read₁ to_type ∙ rw apart t)) in
      let present : (Dict.has from_type s ≡ true) × (Dict.has to_type s ≡ true) =
        (Dict.has-eq-is_some from_type s ∙ rw f refl, Dict.has-eq-is_some to_type s ∙ rw t refl) in
      let moved =
        move_each-raised m (keep (λ x. at_least x.importance threshold) ms) s₁ s₂ s₃ e
          (eq₂ ∙ ap (λ r. (r.0, s₂)) gone) (eq₃ ∙ ap (λ o. (o, s₃)) refused) in
      (
        s₃,
        rw (consolidate_memories, present.0, present.1, ◌>>=◌, eq₁ ∙ ap (λ r. (r.0, s₁)) all, high)
            moved,
        read₃ from_type ∙ rw (different, read₂ from_type, eq_refl from_type, gone) refl,
        read₃ to_type ∙ rw (eq_refl to_type) refl,
      )
    where
      different : (to_type == from_type) ≡ false
      different = ground (arith, apart, eq_iff from_type to_type, eq_iff to_type from_type)
