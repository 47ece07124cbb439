-- ===== src/Memory/Working/Heap.antt =====
-- When `heapq.heappush` returns: the sift compares the new entry alone with its ancestors.
use native.Mathlib.Decide.{ℕ_discrete}
use tokenlyfy_v.Support.{
  ℕ, zero, suc, ◌-◌, ◌/◌, ◌<◌, some, List, [], ◌∷◌, ◌++◌, Bool, ◌≡◌, ◌≢◌, refl, sym, ap, ◌∙◌,
  length, arith, Bool-cases, inl, inr, All, get_elem?, set, eqb, ltb,
}
use tokenlyfy_v.Support.Outcome.{ok}
use tokenlyfy_v.Memory.Base.{Environment}
use tokenlyfy_v.Memory.Working.{Entry, WorkingMemory, entry_less, sift, heappush}

module _ {ℓ} {A : Type ℓ} where
  get_elem?-set_self :
      (xs : List A) (i : ℕ) (v a : A) → get_elem? xs i ≡ some a → get_elem? (set xs i v) i ≡ some v
  get_elem?-set_self [] i v a h = cc
  get_elem?-set_self (x ∷ xs) zero v a h = refl
  get_elem?-set_self (x ∷ xs) (suc i) v a h = get_elem?-set_self xs i v a h

  get_elem?-set_ne :
      (xs : List A) (i j : ℕ) (v : A) → i ≢ j → get_elem? (set xs i v) j ≡ get_elem? xs j
  get_elem?-set_ne [] i j v h = refl
  get_elem?-set_ne (x ∷ xs) zero zero v h = absurd (h refl)
  get_elem?-set_ne (x ∷ xs) zero (suc j) v h = refl
  get_elem?-set_ne (x ∷ xs) (suc i) zero v h = refl
  get_elem?-set_ne (x ∷ xs) (suc i) (suc j) v h = get_elem?-set_ne xs i j v (λ e. h (ap suc e))

  get_elem?-last : (xs : List A) (a : A) → get_elem? (xs ++ a ∷ []) (length xs) ≡ some a
  get_elem?-last [] a = refl
  get_elem?-last (x ∷ xs) a = get_elem?-last xs a

  get_elem?_below :
      (xs : List A) (i j : ℕ) (a : A)
      → get_elem? xs j ≡ some a
      → i < j
      → (b : A) × (get_elem? xs i ≡ some b)
  get_elem?_below [] i j a h l = cc
  get_elem?_below (x ∷ xs) zero j a h l = (x, refl)
  get_elem?_below (x ∷ xs) (suc i) zero a h l = absurd (omega arith)
  get_elem?_below (x ∷ xs) (suc i) (suc j) a h l = get_elem?_below xs i j a h (omega arith)

module _ ⦃env : Environment⦄ where
  -- No other entry of the heap has the timestamp of the new one.
  abbrev NoTie : Entry → ℕ → List Entry → Type 0
  NoTie a pos heap = (i : ℕ) (b : Entry) → i ≢ pos → get_elem? heap i ≡ some b → a.stamp ≢ b.stamp

  entry_less_returns : (a b : Entry) → a.stamp ≢ b.stamp → (r : Bool) × (entry_less a b ≡ ok r)
  unfolding entry_less
  entry_less_returns a b h = elim (Bool-cases (env.equal a.key b.key)) [
    | inl e ↦ (ltb a.stamp b.stamp, ground arith)
    | inr e ↦ (env.less a.key b.key, ground arith)
  ]

  abbrev exchanged : List Entry → ℕ → ℕ → Entry → Entry → List Entry
  exchanged heap pos parent a b = set (set heap pos b) parent a

  exchanged_here :
      (heap : List Entry) (pos parent : ℕ) (a b : Entry)
      → pos ≢ parent
      → get_elem? heap parent ≡ some b
      → get_elem? (exchanged heap pos parent a b) parent ≡ some a
  exchanged_here heap pos parent a b apart h =
      get_elem?-set_self (set heap pos b) parent a b (get_elem?-set_ne heap pos parent b apart ∙ h)

  exchanged-NoTie :
      (heap : List Entry) (pos parent : ℕ) (a b : Entry)
      → pos ≢ parent
      → get_elem? heap pos ≡ some a
      → get_elem? heap parent ≡ some b
      → NoTie a pos heap
      → NoTie a parent (exchanged heap pos parent a b)
  exchanged-NoTie heap pos parent a b apart here above tie i c other h =
      let h' = sym (get_elem?-set_ne (set heap pos b) parent i a (λ e. other (sym e))) ∙ h in
      elim (ℕ_discrete i pos) [
        | yes e ↦
            let e' : get_elem? (set heap pos b) i ≡ some b =
              rw e (get_elem?-set_self heap pos b a here) in
            let same : b ≡ c = cc (h', e') in rw (← same) (tie parent b (λ p. apart (sym p)) above)
        | no e ↦ tie i c e (sym (get_elem?-set_ne heap pos i b (λ p. e (sym p))) ∙ h')
      ]

  sift_returns :
      (rounds : ℕ) (heap : List Entry) (pos : ℕ) (a : Entry)
      → get_elem? heap pos ≡ some a
      → NoTie a pos heap
      → (sift rounds heap pos).0 ≡ ok tt
  unfolding sift
  sift_returns zero heap pos a here tie = refl
  sift_returns (suc rounds) heap pos a here tie = elim (Bool-cases (eqb pos 0)) [
    | inl e ↦ rw e refl
    | inr e ↦
        let parent = (pos - 1) / 2 in
        let apart : pos ≢ parent = ground arith in
        let (b, above) = get_elem?_below heap parent pos a here (ground arith) in
        let (smaller, eq) = entry_less_returns a b (tie parent b (λ p. apart (sym p)) above) in
        elim (Bool-cases smaller) [
          | inl t ↦
              rw (e, here, above, eq, t)
                (sift_returns rounds (exchanged heap pos parent a b) parent a
                  (exchanged_here heap pos parent a b apart above)
                  (exchanged-NoTie heap pos parent a b apart here above tie))
          | inr t ↦ rw (e, here, above, eq, t) refl
        ]
  ]

  last-NoTie :
      (heap : List Entry) (a : Entry)
      → All (λ b. a.stamp ≢ b.stamp) heap
      → NoTie a (length heap) (heap ++ a ∷ [])
  last-NoTie [] a h zero b other e = absurd (other refl)
  last-NoTie [] a h (suc i) b other e = cc
  last-NoTie (x ∷ heap) a h zero b other e = let same : x ≡ b = cc in rw (← same) h.0
  last-NoTie (x ∷ heap) a h (suc i) b other e = last-NoTie heap a h.1 i b (λ p. other (ap suc p)) e

  -- A push returns where no entry of the heap has the timestamp of the new one.
  pub heappush_returns :
      (a : Entry) (s : WorkingMemory)
      → All (λ b. a.stamp ≢ b.stamp) s.memory_heap
      → (heappush a s).0 ≡ ok tt
  unfolding heappush
  heappush_returns a s h =
      sift_returns (length s.memory_heap) (s.memory_heap ++ a ∷ []) (length s.memory_heap) a
        (get_elem?-last s.memory_heap a) (last-NoTie s.memory_heap a h)
