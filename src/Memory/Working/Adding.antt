-- ===== src/Memory/Working/Adding.antt =====
-- What `add` of types/working.py ends in.
use mathlib.Core.Path.{subst}
use tokenlyfy_v.Support.{
  ℕ, ◌+◌, ◌-◌, ◌*◌, ◌≤◌, String, Option, none, some, List, [], ◌∷◌, ◌++◌, true, ◌≡◌, ◌≢◌, refl, sym,
  ap, length, keep, sum_by-append, arith, Bool-cases, inl, inr, All, All-append, All-left,
  All-right, All-keep, eqb,
}
use tokenlyfy_v.Support.Outcome.{Outcome, ok, Outcome-cases}
use tokenlyfy_v.Support.Action.{Action, bind_assoc, return, ◌>>=◌, ◌>>◌, Keeps, Keeps->>=}
use tokenlyfy_v.Memory.Base.{Environment}
use tokenlyfy_v.Memory.Working.{
  raised_by, Item, Entry, WorkingMemory, now, priority, calculate_priority, heappush, push_item,
  rebuild_heap,
}
use tokenlyfy_v.Memory.Working.Operations.{
  minute, earlier, tokens, is_fresh, expire_at, expire_old_memories, enforce_capacity_limits, add,
}
use tokenlyfy_v.Memory.Working.Frame.{
  IsLike, IsLike-refl, now-IsLike, push_item-IsLike, rebuild_heap-IsLike,
}
use tokenlyfy_v.Memory.Working.Counting.{
  IsCounted, expire_old_memories-IsCounted, push_item-IsCounted,
}
use tokenlyfy_v.Memory.Working.Heap.{heappush_returns}
use tokenlyfy_v.Memory.Working.Limits.{IsFinite, WithinLimits, enforce_capacity_limits_ends}

module _ ⦃env : Environment⦄ where
  open env use {clock}

  -- The clean-up and the push, which come before `add` stores the item.
  abbrev pub prepared : Item → Action WorkingMemory (Unit {0})
  prepared m = do expire_old_memories; push_item m

  prepared-IsCounted : (m : Item) → Keeps IsCounted (prepared m)
  prepared-IsCounted m = Keeps->>= _ _ expire_old_memories-IsCounted (λ _. push_item-IsCounted m)

  abbrev AreFinite : WorkingMemory → Type 0
  AreFinite s = All IsFinite s.memories

  finite_by_IsLike {κ} :
      {A : Type κ} (m : Action WorkingMemory A)
      → ((base : WorkingMemory) → Keeps (IsLike base) m)
      → Keeps AreFinite m
  finite_by_IsLike m h = record {
    keeps = λ s f. subst (All IsFinite) (sym ((h s).keeps s (IsLike-refl s)).memories) f;
  }

  expire_at-AreFinite : (t : ℕ) → Keeps AreFinite (expire_at t)
  unfolding expire_at
  expire_at-AreFinite t = record {
    keeps = λ s h. elim (Outcome-cases (earlier t (s.max_age_minutes * minute))) [
      | inr (x, e) ↦ rw (expire_at, e) h
      | inl (cutoff, e) ↦
          rw (expire_at, e)
            (elim (Bool-cases
              (eqb (length (keep (is_fresh cutoff) s.memories)) (length s.memories))) [
                | inl e ↦ rw e h
                | inr e ↦ rw e (
                    (finite_by_IsLike rebuild_heap rebuild_heap-IsLike).keeps _
                      (All-keep IsFinite (is_fresh cutoff) s.memories h))
              ])
    ];
  }

  expire-AreFinite : Keeps AreFinite expire_old_memories
  unfolding expire_old_memories
  expire-AreFinite = record { keeps = λ s h. by_memories s s.memories h }
    where
      by_memories :
          (s : WorkingMemory) (ms : List Item)
          → AreFinite s
          → AreFinite
              (elim ms as (λ _. Outcome (Unit {0}) × WorkingMemory) [
                | [] ↦ (ok tt, s)
                | m ∷ rest ↦ (do t ← now; expire_at t) s
              ]).1
      by_memories s [] h = h
      by_memories s (m ∷ ms) h =
          (Keeps->>= now expire_at (finite_by_IsLike now now-IsLike) expire_at-AreFinite).keeps s h

  prepared-AreFinite : (m : Item) → Keeps AreFinite (prepared m)
  prepared-AreFinite m =
      Keeps->>= _ _ expire-AreFinite
        (λ _. finite_by_IsLike (push_item m) (λ base. push_item-IsLike base m))

  abbrev pub stored : Item → WorkingMemory → WorkingMemory
  stored m s = record s {
    memories = s.memories ++ m ∷ [];
    current_tokens = raised_by (tokens m) s.current_tokens;
  }

  abbrev pub finished : Item → Action WorkingMemory (Option String)
  finished m = do
    ended ← enforce_capacity_limits
    return (elim ended [ none ↦ none | some u ↦ some m.id ])

  -- `add` is the preparation and, if that returns, the storing and the enforcement of the limits.
  pub add-eq :
      (m : Item) (s : WorkingMemory)
      → add m s ≡ (prepared m >>= λ _. (λ s'. finished m (stored m s'))) s
  unfolding add ◌>>=◌
  add-eq m s =
      sym (bind_assoc expire_old_memories (λ _. push_item m) (λ _ s'. finished m (stored m s')) s)

  add-prepared :
      (m : Item) (s s' : WorkingMemory)
      → IsCounted s
      → All IsFinite (s.memories ++ m ∷ [])
      → prepared m s ≡ (ok tt, s')
      → (last : WorkingMemory) × (add m s ≡ (ok (some m.id), last))
        × WithinLimits last
        × IsCounted last
  unfolding ◌>>=◌
  add-prepared m s s' c f h =
      let counted =
        subst (λ (r : Outcome (Unit {0}) × WorkingMemory). IsCounted r.1) h
          ((prepared-IsCounted m).keeps s c) in
      let finite =
        subst (λ (r : Outcome (Unit {0}) × WorkingMemory). AreFinite r.1) h
          ((prepared-AreFinite m).keeps s (All-left IsFinite s.memories (m ∷ []) f)) in
      let (last, eq, within, counted') =
        enforce_capacity_limits_ends (stored m s')
          (omega (arith, sum_by-append tokens s'.memories (m ∷ [])))
          (All-append IsFinite s'.memories (m ∷ []) finite
            (All-right IsFinite s.memories (m ∷ []) f)) in
      (last, rw (add-eq m s) (rw h (rw eq refl)), within, counted')

  -- At the next reading of the clock, the time of the memory is not over, counted back from it.
  abbrev pub IsYoung : WorkingMemory → Item → Type 0
  IsYoung s x =
      (s.max_age_minutes * minute ≤ clock s.ticks)
      × (clock s.ticks ≤ x.timestamp + s.max_age_minutes * minute)

  abbrev pub AreFresh : WorkingMemory → Type 0
  AreFresh s = All (IsYoung s) s.memories

  expire_nothing :
      (s : WorkingMemory)
      → AreFresh s
      → (t : ℕ) × (expire_old_memories s ≡ (ok tt, record s { ticks = t }))
  unfolding expire_old_memories expire_at earlier now ◌>>=◌ keep
  expire_nothing s h = by_memories s.memories h
    where
      all_kept :
          (ms : List Item)
          → All (IsYoung s) ms
          → keep (is_fresh (clock s.ticks - s.max_age_minutes * minute)) ms ≡ ms
      all_kept [] young = refl
      all_kept (x ∷ ms) young =
          let fresh : is_fresh (clock s.ticks - s.max_age_minutes * minute) x ≡ true =
            ground (arith, young.0.0, young.0.1) in
          rw fresh (ap (◌∷◌ x) (all_kept ms young.1))

      same_number :
          eqb
            (length (keep (is_fresh (clock s.ticks - s.max_age_minutes * minute)) s.memories))
            (length s.memories)
          ≡ true
      same_number = rw (all_kept s.memories h) (ground arith)

      by_memories :
          (ms : List Item)
          → All (IsYoung s) ms
          → (t : ℕ) × ((elim ms as (λ _. Outcome (Unit {0}) × WorkingMemory) [
            | [] ↦ (ok tt, s)
            | m ∷ rest ↦ (do t ← now; expire_at t) s
          ])
              ≡ (ok tt, record s { ticks = t }))
      by_memories [] young = (s.ticks, refl)
      by_memories (m ∷ ms) young =
          let reached : earlier (clock s.ticks) (s.max_age_minutes * minute)
              ≡ ok (clock s.ticks - s.max_age_minutes * minute) =
            ground (arith, young.0.0) in
          (s.ticks + 1, rw (◌>>=◌, expire_at, reached, same_number) refl)

  push_item_returns :
      (m : Item) (s : WorkingMemory)
      → All (λ b. m.timestamp ≢ b.stamp) s.memory_heap
      → (s' : WorkingMemory) × (push_item m s ≡ (ok tt, s'))
  unfolding push_item calculate_priority now ◌>>=◌
  push_item_returns m s apart =
      let entry : Entry = record {
        key = env.negate (priority (clock s.ticks) m);
        stamp = m.timestamp;
        item = m;
      } in
      let later = record s { ticks = s.ticks + 1 } in
      (
        (heappush entry later).1,
        ap (λ r. (r, (heappush entry later).1)) (heappush_returns entry later apart),
      )

  -- With a right count and finite priorities, `add` of an item whose timestamp no heap entry has,
  -- while no memory has passed its time and that time counted back from the clock is a date, returns the item's identifier: the loops end. The memory is
  -- then within both limits, and its count is right.
  pub add_returns :
      (m : Item) (s : WorkingMemory)
      → IsCounted s
      → All IsFinite (s.memories ++ m ∷ [])
      → AreFresh s
      → All (λ b. m.timestamp ≢ b.stamp) s.memory_heap
      → (last : WorkingMemory) × (add m s ≡ (ok (some m.id), last))
        × WithinLimits last
        × IsCounted last
  unfolding ◌>>=◌
  add_returns m s c f fresh apart =
      let (t, eq) = expire_nothing s fresh in
      let (s', eq') = push_item_returns m (record s { ticks = t }) apart in
      add-prepared m s s' c f (rw (eq, ◌>>=◌) eq')
