-- ===== src/Memory/Working/Tests.antt =====
-- The working memory on the samples.
use tokenlyfy_v.Support.{
  ℕ, ◌+◌, ◌*◌, ◌≤◌, ◌<◌, ◌⊎◌, ◌&&◌, not, none, some, List, [], ◌∷◌, true, false, ◌≡◌, refl, All,
  arith, keep, map,
}
use tokenlyfy_v.Support.Sort.{insert_sorted, sorted}
use tokenlyfy_v.Support.Text.{is_space, count_words, words_from}
use tokenlyfy_v.Support.Outcome.{ok, raise, other_error}
use tokenlyfy_v.Support.Action.{return, gets, modify, ◌>>=◌, while_do, for_each}
use tokenlyfy_v.Memory.Base.{MemoryItem}
use tokenlyfy_v.Memory.Samples.{tenths, memory, empty, one, two, three, started}
use tokenlyfy_v.Memory.Working.{
  lowered_by, Item, WorkingMemory, now, time_decay, priority, calculate_priority, entry_less, sift,
  heappush, push_item, rebuild_heap, mark_deleted_in_heap,
}
use tokenlyfy_v.Memory.Working.Operations.{
  minute, day, earlier, tokens, expire_at, expire_old_memories, pop_first, remove, lowest_from,
  remove_lowest_priority_memory, enforce_capacity_limits, add, merge, changed, first_of,
  replace_object, update, clear, has_memory,
}
use tokenlyfy_v.Memory.Working.Forget.{keyed, chosen, remove_each, forget}
use tokenlyfy_v.Memory.Working.Popped.{IsPopped}
use tokenlyfy_v.Memory.Working.Counting.{IsCounted, copies}
use tokenlyfy_v.Memory.Working.History.{
  add_item, update_item, remove_item, apply, after, AllOnce, after-IsCounted,
}
use tokenlyfy_v.Memory.Working.Limits.{IsFinite, WithinLimits}
use tokenlyfy_v.Memory.Working.Adding.{AreFresh, add_returns}
use tokenlyfy_v.Memory.Working.Forgetting.{is_within, Forgets, forget_result}
use tokenlyfy_v.Memory.Working.Removal.{remove_result}

program : Unit {0}
unfolding return gets modify ◌>>=◌ while_do for_each insert_sorted sorted keep is_space count_words
    words_from now time_decay priority calculate_priority entry_less sift heappush push_item
    rebuild_heap mark_deleted_in_heap earlier expire_at expire_old_memories pop_first remove
    lowest_from remove_lowest_priority_memory enforce_capacity_limits add merge changed first_of
    replace_object copies update clear has_memory keyed chosen remove_each forget apply after
program = tt

-- The third item takes the place of the first, whose priority is the lowest.
third_evicts :
    map
      (λ (m : MemoryItem ℕ ℕ). m.id)
      (after (add_item one ∷ add_item two ∷ add_item three ∷ []) empty).memories
    ≡ "two" ∷ "three" ∷ []
unfolding program
third_evicts = refl

once :
    AllOnce
      (add_item one
        ∷ add_item two
        ∷ update_item "two" (some (101 ∷ 32 ∷ 102 ∷ [])) none none
        ∷ remove_item "one"
        ∷ [])
      empty
unfolding program
once = (tt, (tt, (refl, (tt, tt))))

-- An item that is added twice is one object: an update shows in both entries, and counts once.
twice :
    (after
      (add_item two ∷ add_item two ∷ update_item "two" (some (101 ∷ 32 ∷ 102 ∷ [])) none none ∷ [])
      (record empty { max_tokens = 9 })).current_tokens
    ≡ record { gained = 4; lost = 1 }
unfolding program
twice = refl

after-IsCounted_example : IsCounted (
    after
      (add_item one
        ∷ add_item two
        ∷ update_item "two" (some (101 ∷ 32 ∷ 102 ∷ [])) none none
        ∷ remove_item "one"
        ∷ [])
      empty)
after-IsCounted_example =
    after-IsCounted
      (add_item one
        ∷ add_item two
        ∷ update_item "two" (some (101 ∷ 32 ∷ 102 ∷ [])) none none
        ∷ remove_item "one"
        ∷ [])
      empty once refl

started-eq : after (add_item one ∷ []) empty ≡ started
unfolding program
started-eq = refl

started-IsCounted : IsCounted started
unfolding program
started-IsCounted = refl

two-IsFinite : All IsFinite (one ∷ two ∷ [])
unfolding program
two-IsFinite = ((λ now. refl), ((λ now. refl), tt))

started_fresh : AreFresh started
unfolding program
started_fresh = ((ground arith, ground arith), tt)

add_returns_example :
    (last : WorkingMemory) × (add two started ≡ (ok (some "two"), last))
    × WithinLimits last
    × IsCounted last
add_returns_example =
    add_returns two started started-IsCounted two-IsFinite started_fresh (ground arith, tt)

-- An item of the time and the priority of the first, with another identifier.
abbrev tie : MemoryItem ℕ ℕ
tie = memory "tie" 100 5 (103 ∷ [])

remove_result_example :
    (has_memory "one" started.memories ≡ false → remove "one" started ≡ (ok false, started))
    × (has_memory "one" started.memories ≡ true
        → (m : Item) × (rest : List Item) × (remove "one" started ≡ (
          ok true,
          record started {
            memories = rest;
            current_tokens = lowered_by (tokens m) started.current_tokens;
          },
        ))
          × IsPopped "one" started.memories m rest)
remove_result_example = remove_result "one" started

started_within : started.max_age_minutes * minute ≤ tenths.clock started.ticks
started_within = ground arith

forget_result_example :
    Forgets
      (λ m.
        is_within (started.max_age_minutes * minute) started m && not (tenths.less m.importance 6))
      started
      (forget "importance_based" 6 1 started)
    × (((1 * day ≤ tenths.clock started.ticks)
          × Forgets
              (λ m.
                is_within (started.max_age_minutes * minute) started m
                && is_within (1 * day) started m)
              started
              (forget "time_based" 6 1 started))
        ⊎ ((tenths.clock started.ticks < 1 * day)
            × (forget "time_based" 6 1 started ≡ (
              raise (other_error "OverflowError"),
              record started { ticks = started.ticks + 1 },
            ))))
unfolding program
forget_result_example = forget_result 6 1 started (refl, tt) started_within

forget_run : (forget "importance_based" 6 1 started).0 ≡ ok 1
unfolding program
forget_run = refl
