-- ===== src/Memory/Working/Forgetting.antt =====
-- What `forget` of types/working.py leaves.
use tokenlyfy_v.Support.{
  ℕ, ◌+◌, ◌-◌, ◌*◌, ◌≤◌, ◌<◌, String, List, [], ◌∷◌, ◌++◌, Bool, true, not, ◌&&◌, ◌≡◌, ◌⊎◌, refl,
  sym, ap, ◌∙◌, length, leb, ltb, keep, arith, Bool-cases, inl, inr, All,
}
use tokenlyfy_v.Support.Outcome.{Outcome, ok, raise, other_error}
use tokenlyfy_v.Support.Action.{◌>>=◌, gets}
use tokenlyfy_v.Memory.Base.{Environment}
use tokenlyfy_v.Memory.Working.{Item, WorkingMemory, now}
use tokenlyfy_v.Memory.Working.Operations.{minute, day, earlier, is_fresh}
use tokenlyfy_v.Memory.Working.Forget.{ids, chosen, remove_each, forget}
use tokenlyfy_v.Memory.Working.Removal.{remove_each_count}
use tokenlyfy_v.Memory.Working.Distinct.{
  AreDistinct, keep-same, remove_each-keep, listed-ids, listed_both,
}

module _ ⦃env : Environment⦄ where
  open env use {Float, less, clock}

  -- The time of the item is at most `age` before the next reading of the clock.
  abbrev pub is_within : ℕ → WorkingMemory → Item → Bool
  is_within age s m = leb (clock s.ticks) (m.timestamp + age)

  -- A number is returned; the memories left are the spared ones, in their order, and the number is
  -- that of the others.
  abbrev pub Forgets : (Item → Bool) → WorkingMemory → Outcome ℕ × WorkingMemory → Type 0
  Forgets spared s out =
      (n : ℕ) × (s' : WorkingMemory) × (out ≡ (ok n, s'))
      × (s'.memories ≡ keep spared s.memories)
      × (length s'.memories + n ≡ length s.memories)

  abbrev ticked : WorkingMemory → WorkingMemory
  ticked s = record s { ticks = s.ticks + 1 }

  abbrev expired : WorkingMemory → Item → Bool
  expired s m = not (is_fresh (clock s.ticks - s.max_age_minutes * minute) m)

  forget-eq :
      (strategy : String) (threshold : Float) (days : ℕ) (s : WorkingMemory) (q : Item → Bool)
      → s.max_age_minutes * minute ≤ clock s.ticks
      → chosen strategy threshold days (clock s.ticks) (ticked s)
        ≡ (ok (ids (keep q s.memories)), ticked s)
      → forget strategy threshold days s
        ≡ remove_each (ids (keep (expired s) s.memories) ++ ids (keep q s.memories)) (ticked s)
  unfolding forget now gets earlier ◌>>=◌
  forget-eq strategy threshold days s q reached h =
      let test : leb (s.max_age_minutes * minute) (clock s.ticks) ≡ true =
        ground (arith, reached) in
      rw (forget, ◌>>=◌, test, h) refl

  forget-Forgets :
      (strategy : String) (threshold : Float) (days : ℕ) (s : WorkingMemory) (q : Item → Bool)
      → AreDistinct s.memories
      → s.max_age_minutes * minute ≤ clock s.ticks
      → chosen strategy threshold days (clock s.ticks) (ticked s)
        ≡ (ok (ids (keep q s.memories)), ticked s)
      → Forgets (λ m. not (expired s m) && not (q m)) s (forget strategy threshold days s)
  forget-Forgets strategy threshold days s q distinct reached h =
      let xs = ids (keep (expired s) s.memories) ++ ids (keep q s.memories) in
      let (n, s', eq, count) = remove_each_count xs (ticked s) in
      (
        n,
        s',
        forget-eq strategy threshold days s q reached h ∙ eq,
        ap (λ (r : Outcome ℕ × WorkingMemory). r.1.memories) (sym eq)
            ∙ remove_each-keep xs (ticked s) distinct
            ∙ keep-same _ _ s.memories (
                listed_both (expired s) q (ids (keep (expired s) s.memories))
                  (ids (keep q s.memories)) s.memories (listed-ids (expired s) s.memories distinct)
                  (listed-ids q s.memories distinct)),
        count,
      )

  respared :
      (p q : Item → Bool) (s : WorkingMemory) (out : Outcome ℕ × WorkingMemory)
      → All (λ m. p m ≡ q m) s.memories
      → Forgets p s out
      → Forgets q s out
  respared p q s out h (n, s', eq, left, count) =
      (n, s', eq, left ∙ keep-same p q s.memories h, count)

  every : (P : Item → Type 0) (ms : List Item) → ((m : Item) → P m) → All P ms
  every P [] h = tt
  every P (m ∷ ms) h = (h m, every P ms h)

  -- For memories of distinct identifiers, where the time to live counted back from the clock is a
  -- date: the strategy importance_based leaves the memories within their time to live whose importance
  -- is not below the threshold, and returns how many it took out; time_based leaves those within both
  -- their time to live and the days, and returns likewise, or raises OverflowError with nothing
  -- taken out where the days counted back from the clock are no date.
  pub forget_result :
      (threshold : Float) (max_age_days : ℕ) (s : WorkingMemory)
      → AreDistinct s.memories
      → s.max_age_minutes * minute ≤ clock s.ticks
      → Forgets
          (λ m. is_within (s.max_age_minutes * minute) s m && not (less m.importance threshold))
          s
          (forget "importance_based" threshold max_age_days s)
        × (((max_age_days * day ≤ clock s.ticks)
              × Forgets
                  (λ m.
                    is_within (s.max_age_minutes * minute) s m
                    && is_within (max_age_days * day) s m)
                  s
                  (forget "time_based" threshold max_age_days s))
            ⊎ ((clock s.ticks < max_age_days * day)
                × (forget "time_based" threshold max_age_days s
                    ≡ (raise (other_error "OverflowError"), record s { ticks = s.ticks + 1 }))))
  unfolding chosen earlier forget now gets ◌>>=◌
  forget_result threshold max_age_days s distinct reached =
      let reaches : leb (s.max_age_minutes * minute) (clock s.ticks) ≡ true =
        ground (arith, reached) in
      (
        respared _ _ s _
            (every _ s.memories
              (λ m. ap (λ b. b && not (less m.importance threshold)) (ground (arith, reached))))
            (forget-Forgets "importance_based" threshold max_age_days s
              (λ m. less m.importance threshold) distinct reached refl),
        elim (Bool-cases (leb (max_age_days * day) (clock s.ticks))) [
          | inl e ↦ inl (
            ground (arith, e),
            respared _ _ s _ (every _ s.memories (λ m. ground (arith, reached, e))) (
                forget-Forgets "time_based" threshold max_age_days s
                  (λ m. ltb m.timestamp (clock s.ticks - max_age_days * day)) distinct reached
                  (rw e refl)),
          )
          | inr e ↦ inr (ground (arith, e), rw (forget, ◌>>=◌, reaches, e) refl)
        ],
      )
