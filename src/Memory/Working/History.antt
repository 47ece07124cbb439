-- ===== src/Memory/Working/History.antt =====
-- `current_tokens` is the number of words of the memories, through every sequence of calls of the
-- methods of types/working.py that change it.

use tokenlyfy_v.Support.{
  ℕ, ◌*◌, String, Option, List, [], ◌∷◌, ◌++◌, ◌==◌, refl, length, ltb, Bool-cases, inl, inr,
}
use tokenlyfy_v.Support.Text.{Text}
use tokenlyfy_v.Support.Dict.{Dict}
use tokenlyfy_v.Support.Outcome.{Outcome-cases}
use tokenlyfy_v.Support.Action.{modify, Keeps, Keeps-return, Keeps-gets, Keeps->>=}
use tokenlyfy_v.Memory.Base.{Environment}
use tokenlyfy_v.Memory.Working.{Item, WorkingMemory}
use tokenlyfy_v.Memory.Working.Operations.{
  minute, day, earlier, first_of, expire_old_memories, remove, add, update, clear,
}
use tokenlyfy_v.Memory.Working.Forget.{keyed, chosen, remove_each, forget}
use tokenlyfy_v.Memory.Working.Frame.{IsLike, calculate_priority-IsLike}
use tokenlyfy_v.Memory.Working.Counting.{
  StoredOnce, IsCounted, IsCounted-by_IsLike, now-IsCounted, remove-IsCounted, update-IsCounted,
  add-IsCounted, expire_old_memories-IsCounted,
}

module _ ⦃env : Environment⦄ where
  open env use {Float, Value}

  remove_each-IsCounted : (ids : List String) → Keeps IsCounted (remove_each ids)
  unfolding remove_each
  remove_each-IsCounted [] = Keeps-return 0
  remove_each-IsCounted (id ∷ rest) =
      Keeps->>= _ _ (remove-IsCounted id)
        λ found. Keeps->>= _ _ (remove_each-IsCounted rest) (λ count. Keeps-return _)

  keyed-IsLike : (base : WorkingMemory) (ms : List Item) → Keeps (IsLike base) (keyed ms)
  unfolding keyed
  keyed-IsLike base [] = Keeps-return []
  keyed-IsLike base (m ∷ ms) =
      Keeps->>= _ _ (calculate_priority-IsLike base m)
        λ p. Keeps->>= _ _ (keyed-IsLike base ms) (λ rest. Keeps-return _)

  keyed-IsCounted : (ms : List Item) → Keeps IsCounted (keyed ms)
  keyed-IsCounted ms = IsCounted-by_IsLike (keyed ms) (λ base. keyed-IsLike base ms)

  chosen-IsCounted :
      (strategy : String) (threshold : Float) (days t : ℕ)
      → Keeps IsCounted (chosen strategy threshold days t)
  unfolding chosen
  chosen-IsCounted strategy threshold days t = record {
    keeps = λ s h. elim (Bool-cases (strategy == "importance_based")) [
      | inl e ↦ rw e h
      | inr e ↦ rw e (elim (Bool-cases (strategy == "time_based")) [
        | inl e' ↦ rw e' (elim (Outcome-cases (earlier t (days * day))) [
          | inl (cutoff, e'') ↦ rw e'' h
          | inr (x, e'') ↦ rw e'' h
        ])
        | inr e' ↦ rw e' (elim (Bool-cases (strategy == "capacity_based")) [
          | inl e'' ↦ rw e'' (elim (Bool-cases (ltb s.max_capacity (length s.memories))) [
            | inl over ↦ rw over (
                (Keeps->>= (keyed s.memories) _ (keyed-IsCounted s.memories)
                    (λ ps. Keeps-return _)).keeps
                  s h)
            | inr under ↦ rw under h
          ])
          | inr e'' ↦ rw e'' h
        ])
      ])
    ];
  }

  forget-IsCounted :
      (strategy : String) (threshold : Float) (days : ℕ)
      → Keeps IsCounted (forget strategy threshold days)
  unfolding forget
  forget-IsCounted strategy threshold days = Keeps->>= _ _ now-IsCounted λ t.
      Keeps->>= _ _ (cutoff-IsCounted t) λ cutoff. Keeps->>= _ _ (Keeps-gets _) λ expired.
        Keeps->>= _ _ (chosen-IsCounted strategy threshold days t)
          λ more. remove_each-IsCounted (expired ++ more)
    where
      cutoff-IsCounted :
          (t : ℕ) → Keeps IsCounted (λ s. (earlier t (s.max_age_minutes * minute), s))
      cutoff-IsCounted t = record { keeps = λ s h. h }

  clear-IsCounted : Keeps IsCounted clear
  unfolding clear modify
  clear-IsCounted = record { keeps = λ s h. refl }

  -- The methods that change a working memory, as a client calls them.
  pub data Call : Type 0 where
    add_item : Item → Call
    update_item : String → Option Text → Option Float → Option (Dict Value) → Call
    remove_item : String → Call
    forget_items : String → Float → ℕ → Call
    expire_items : Call
    clear_items : Call

  -- The state after a call, whether it returns or raises.
  unfoldable pub apply : Call → WorkingMemory → WorkingMemory
  apply (add_item m) s = (add m s).1
  apply (update_item id content i d) s = (update id content i d s).1
  apply (remove_item id) s = (remove id s).1
  apply (forget_items strategy threshold days) s = (forget strategy threshold days s).1
  apply expire_items s = (expire_old_memories s).1
  apply clear_items s = (clear s).1

  unfoldable pub after : List Call → WorkingMemory → WorkingMemory
  after [] s = s
  after (call ∷ calls) s = after calls (apply call s)

  -- An update finds an object that is stored once; the other calls are free.
  abbrev pub UpdatesOnce : Call → WorkingMemory → Type 0
  UpdatesOnce (add_item m) s = Unit
  UpdatesOnce (update_item id content i d) s = StoredOnce s.memories (first_of id s.memories)
  UpdatesOnce (remove_item id) s = Unit
  UpdatesOnce (forget_items strategy threshold days) s = Unit
  UpdatesOnce expire_items s = Unit
  UpdatesOnce clear_items s = Unit

  -- Each call of the sequence in the state that the earlier ones leave
  abbrev pub AllOnce : List Call → WorkingMemory → Type 0
  AllOnce [] s = Unit
  AllOnce (call ∷ calls) s = UpdatesOnce call s × AllOnce calls (apply call s)

  apply-IsCounted :
      (call : Call) (s : WorkingMemory)
      → UpdatesOnce call s
      → IsCounted s
      → IsCounted (apply call s)
  unfolding apply
  apply-IsCounted (add_item m) s u = (add-IsCounted m).keeps s
  apply-IsCounted (update_item id content i d) s u = update-IsCounted id content i d s u
  apply-IsCounted (remove_item id) s u = (remove-IsCounted id).keeps s
  apply-IsCounted (forget_items strategy threshold days) s u =
      (forget-IsCounted strategy threshold days).keeps s
  apply-IsCounted expire_items s u = expire_old_memories-IsCounted.keeps s
  apply-IsCounted clear_items s u = clear-IsCounted.keeps s

  -- From a state whose count is right, such as a new one, `current_tokens` stays the number of words
  -- of the memories through every sequence of calls, those that raise included, in which each update
  -- finds an object that is stored once at that time.
  pub after-IsCounted :
      (calls : List Call) (s : WorkingMemory)
      → AllOnce calls s
      → IsCounted s
      → IsCounted (after calls s)
  unfolding after
  after-IsCounted [] s once h = h
  after-IsCounted (call ∷ calls) s once h =
      after-IsCounted calls (apply call s) once.1 (apply-IsCounted call s once.0 h)
