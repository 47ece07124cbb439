-- ===== src/Memory/Working/Raising.antt =====
-- What `add` of types/working.py leaves where it raises.
use tokenlyfy_v.Support.{◌-◌, ◌*◌, ◌≡◌, ◌⊎◌, keep}
use tokenlyfy_v.Support.Outcome.{Outcome, ok}
use tokenlyfy_v.Support.Action.{Action}
use tokenlyfy_v.Memory.Base.{Environment}
use tokenlyfy_v.Memory.Working.{WorkingMemory}
use tokenlyfy_v.Memory.Working.Operations.{minute, is_fresh}

-- The action returns, in every state.
abbrev Returns {ℓ κ} : {S : Type ℓ} {A : Type κ} → Action S A → Type (ℓ ⊔ κ)
Returns {S} {A} m = (s : S) → (a : A) × (s' : S) × (m s ≡ (ok a, s'))

module _ ⦃env : Environment⦄ where
  open env use {clock, infinity}

  -- The memories are the old ones, or those of them whose time is not over.
  abbrev pub AreOld : WorkingMemory → WorkingMemory → Type 0
  AreOld s s' =
      (s'.memories ≡ s.memories)
      ⊎ (s'.memories ≡ keep (is_fresh (clock s.ticks - s.max_age_minutes * minute)) s.memories)
