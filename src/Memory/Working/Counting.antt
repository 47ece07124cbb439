-- ===== src/Memory/Working/Counting.antt =====
-- `current_tokens` is the number of words of the memories, through each method of
-- types/working.py that adds, updates, expires or removes.
use mathlib.Core.Path.{subst}
use tokenlyfy_v.Support.{
  ℕ, ◌+◌, ◌*◌, ◌<◌, String, Option, none, some, List, [], ◌∷◌, Bool, true, not, if◌then◌else◌, ◌==◌,
  ◌≡◌, refl, ap, length, keep, sum_by, eqb, sum_by-append, arith, Bool-cases, Option-cases, inl,
  inr,
}
use tokenlyfy_v.Support.Text.{Text, count_words}
use tokenlyfy_v.Support.Dict.{Dict}
use tokenlyfy_v.Support.Outcome.{Outcome, ok, Outcome-cases}
use tokenlyfy_v.Support.Action.{
  Action, return, ◌>>=◌, while_do, Keeps, Keeps-return, Keeps->>=, Keeps-modify_twice,
  Keeps-while_do,
}
use tokenlyfy_v.Memory.Base.{Environment}
use tokenlyfy_v.Memory.Working.{
  Count, exchanged_by, exceeds, Item, WorkingMemory, now, push_item, rebuild_heap,
  mark_deleted_in_heap,
}
use tokenlyfy_v.Memory.Working.Operations.{
  minute, earlier, tokens, is_fresh, expire_at, expire_old_memories, pop_first, remove, lowest_from,
  remove_lowest_priority_memory, enforce_capacity_limits, add, changed, first_of, replace_object,
  update,
}
use tokenlyfy_v.Memory.Working.Frame.{
  IsLike, IsLike-refl, now-IsLike, push_item-IsLike, rebuild_heap-IsLike,
}
use tokenlyfy_v.Memory.Working.Popped.{pop_first-sum}

module _ ⦃env : Environment⦄ where
  open env use {Float, Value}

  abbrev pub IsCounted : WorkingMemory → Type 0
  IsCounted s = s.current_tokens.gained ≡ sum_by tokens s.memories + s.current_tokens.lost

  IsCounted-of_IsLike : (base s : WorkingMemory) → IsLike base s → IsCounted base → IsCounted s
  IsCounted-of_IsLike base s l h = omega (
    arith,
    ap (λ (c : Count). c.gained) l.current_tokens,
    ap (λ (c : Count). c.lost) l.current_tokens,
    ap (sum_by tokens) l.memories,
  )

  -- An action that leaves memories and count alone keeps them in step.
  pub IsCounted-by_IsLike {κ} :
      {A : Type κ} (m : Action WorkingMemory A)
      → ((base : WorkingMemory) → Keeps (IsLike base) m)
      → Keeps IsCounted m
  IsCounted-by_IsLike m h = record {
    keeps = λ s c. IsCounted-of_IsLike s (m s).1 ((h s).keeps s (IsLike-refl s)) c;
  }

  pub now-IsCounted : Keeps IsCounted now
  now-IsCounted = IsCounted-by_IsLike now now-IsLike

  pub push_item-IsCounted : (m : Item) → Keeps IsCounted (push_item m)
  push_item-IsCounted m = IsCounted-by_IsLike (push_item m) (λ base. push_item-IsLike base m)

  rebuild_heap-IsCounted : Keeps IsCounted rebuild_heap
  rebuild_heap-IsCounted = IsCounted-by_IsLike rebuild_heap rebuild_heap-IsLike

  sum_by-keep_split :
      (test : Item → Bool) (ms : List Item)
      → sum_by tokens (keep test ms) + sum_by tokens (keep (λ m. not (test m)) ms)
        ≡ sum_by tokens ms
  unfolding keep
  sum_by-keep_split test [] = omega arith
  sum_by-keep_split test (m ∷ ms) = ground (arith, sum_by-keep_split test ms)

  expire_at-IsCounted : (t : ℕ) → Keeps IsCounted (expire_at t)
  unfolding expire_at
  expire_at-IsCounted t = record {
    keeps = λ s h. elim (Outcome-cases (earlier t (s.max_age_minutes * minute))) [
      | inr (x, e) ↦ rw (expire_at, e) h
      | inl (cutoff, e) ↦
          rw (expire_at, e)
            (elim (Bool-cases
              (eqb (length (keep (is_fresh cutoff) s.memories)) (length s.memories))) [
                | inl e ↦ rw e h
                | inr e ↦ rw e (
                    rebuild_heap-IsCounted.keeps _
                      (omega (arith, sum_by-keep_split (is_fresh cutoff) s.memories)))
              ])
    ];
  }

  pub expire_old_memories-IsCounted : Keeps IsCounted expire_old_memories
  unfolding expire_old_memories
  expire_old_memories-IsCounted = record { keeps = λ s h. by_memories s s.memories h }
    where
      by_memories :
          (s : WorkingMemory) (ms : List Item)
          → IsCounted s
          → IsCounted
              (elim ms as (λ _. Outcome (Unit {0}) × WorkingMemory) [
                | [] ↦ (ok tt, s)
                | m ∷ rest ↦ (do t ← now; expire_at t) s
              ]).1
      by_memories s [] h = h
      by_memories s (m ∷ ms) h =
          (Keeps->>= now expire_at now-IsCounted expire_at-IsCounted).keeps s h

  pub remove-IsCounted : (id : String) → Keeps IsCounted (remove id)
  unfolding remove mark_deleted_in_heap ◌>>=◌
  remove-IsCounted id = record {
    keeps = λ s h. elim (Option-cases (pop_first id s.memories)) [
      | inl e ↦ rw (e, remove) h
      | inr ((m, rest), e) ↦ rw (e, remove) (omega (arith, pop_first-sum id s.memories m rest e))
    ];
  }

  remove_lowest-IsCounted : Keeps IsCounted remove_lowest_priority_memory
  unfolding remove_lowest_priority_memory
  remove_lowest-IsCounted = record {
    keeps = λ s h. elim (Option-cases (lowest_from s.ticks env.infinity none s.memories)) [
      | inl e ↦ rw (e, remove_lowest_priority_memory) h
      | inr (m, e) ↦
          rw (e, remove_lowest_priority_memory)
            ((Keeps->>= (remove m.id) (λ _. return tt) (remove-IsCounted m.id)
                (λ _. Keeps-return tt)).keeps
              _ h)
    ];
  }

  enforce-IsCounted : Keeps IsCounted enforce_capacity_limits
  unfolding enforce_capacity_limits
  enforce-IsCounted = record {
    keeps = λ s h.
        (Keeps->>= _ _ (Keeps-while_do _ _ _ remove_lowest-IsCounted)
            (λ o. ended o (length s.memories + 1))).keeps
          s h;
  }
    where
      ended :
          (o : Option (Unit {0})) (fuel : ℕ)
          → Keeps IsCounted (elim o as (λ _. Action WorkingMemory (Option (Unit {0}))) [
            | none ↦ return none
            | some u ↦
                while_do fuel
                  (λ s. exceeds s.max_tokens s.current_tokens)
                  remove_lowest_priority_memory
          ])
      ended none fuel = Keeps-return none
      ended (some u) fuel = Keeps-while_do _ _ _ remove_lowest-IsCounted

  -- `add` keeps the count, also where it raises.
  pub add-IsCounted : (m : Item) → Keeps IsCounted (add m)
  unfolding add
  add-IsCounted m = Keeps->>= _ _ expire_old_memories-IsCounted λ _.
      Keeps->>= _ _ (push_item-IsCounted m) λ _.
        Keeps-modify_twice _ _ _ (λ s h. omega (arith, sum_by-append tokens s.memories (m ∷ [])))
          (Keeps->>= _ _ enforce-IsCounted (λ _. Keeps-return _))

  tokens-changed :
      (content : Option Text) (i : Option Float) (d : Option (Dict Value)) (x : Item)
      → tokens (changed content i d x) ≡ (elim content [ none ↦ tokens x | some c ↦ count_words c ])
  unfolding changed
  tokens-changed none i d x = refl
  tokens-changed (some c) i d x = refl

  -- How many entries are this object
  unfoldable pub copies : ℕ → List Item → ℕ
  copies object [] = 0
  copies object (x ∷ ms) = (if eqb x.object object then 1 else 0) + copies object ms

  replace_object-none :
      (object : ℕ) (m : Item) (ms : List Item)
      → copies object ms ≡ 0
      → replace_object object m ms ≡ ms
  unfolding copies replace_object
  replace_object-none object m [] h = refl
  replace_object-none object m (x ∷ ms) h = elim (Bool-cases (eqb x.object object)) [
    | inl e ↦ absurd (ground arith)
    | inr e ↦ rw e (ap (◌∷◌ x) (replace_object-none object m ms (ground arith)))
  ]

  copies-first_of :
      (id : String) (ms : List Item) (m : Item) → first_of id ms ≡ some m → 0 < copies m.object ms
  unfolding copies first_of
  copies-first_of id [] m h = cc
  copies-first_of id (x ∷ ms) m h = elim (Bool-cases (x.id == id)) [
    | inl e ↦ let same : x ≡ m = ground arith in ground (arith, ap (λ (y : Item). y.object) same)
    | inr e ↦ ground (arith, copies-first_of id ms m)
  ]

  replace_object-sum :
      (id : String) (ms : List Item) (m m' : Item)
      → first_of id ms ≡ some m
      → copies m.object ms ≡ 1
      → sum_by tokens (replace_object m.object m' ms) + tokens m ≡ sum_by tokens ms + tokens m'
  unfolding copies first_of replace_object
  replace_object-sum id [] m m' h once = cc
  replace_object-sum id (x ∷ ms) m m' h once = elim (Bool-cases (x.id == id)) [
    | inl e ↦
        let same : x ≡ m = ground arith in
        let here : eqb x.object m.object ≡ true =
          ground (arith, ap (λ (y : Item). y.object) same) in
        let alone = replace_object-none m.object m' ms (ground arith) in
        rw (here, alone) (omega (arith, ap tokens same))
    | inr e ↦
        let later : first_of id ms ≡ some m = ground arith in
        elim (Bool-cases (eqb x.object m.object)) [
          | inl e' ↦ absurd (ground (arith, copies-first_of id ms m later))
          | inr e' ↦ rw e' (omega (arith, replace_object-sum id ms m m' later (ground arith)))
        ]
  ]

  update_count :
      (content : Option Text) (count : Count) (old new sum sum' : ℕ)
      → new ≡ (elim content [ none ↦ old | some c ↦ count_words c ])
      → count.gained ≡ sum + count.lost
      → sum' + old ≡ sum + new
      → let c : Count = elim content [
        | none ↦ count
        | some c ↦ exchanged_by old (count_words c) count
      ] in
        c.gained ≡ sum' + c.lost
  update_count none count old new sum sum' n h k = omega arith
  update_count (some c) count old new sum sum' n h k = omega arith

  -- No other entry is the object that an update finds.
  abbrev pub StoredOnce : List Item → Option Item → Type 0
  StoredOnce ms none = Unit
  StoredOnce ms (some m) = copies m.object ms ≡ 1

  pub update-IsCounted :
      (id : String) (content : Option Text) (i : Option Float) (d : Option (Dict Value))
      (s : WorkingMemory)
      → StoredOnce s.memories (first_of id s.memories)
      → IsCounted s
      → IsCounted (update id content i d s).1
  unfolding update
  update-IsCounted id content i d s once h = elim (Option-cases (first_of id s.memories)) [
    | inl e ↦ rw (e, update) h
    | inr (m, e) ↦
        let once' : copies m.object s.memories ≡ 1 = subst (StoredOnce s.memories) e once in
        rw (e, update)
          ((Keeps->>= rebuild_heap (λ _. return true) rebuild_heap-IsCounted
              (λ _. Keeps-return true)).keeps
            _
            (update_count content s.current_tokens (tokens m) (tokens (changed content i d m))
              (sum_by tokens s.memories) _ (tokens-changed content i d m) h
              (replace_object-sum id s.memories m (changed content i d m) e once')))
  ]
