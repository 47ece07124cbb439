-- ===== src/Memory/Working/Summary.antt =====
-- `get_context_summary` of types/working.py.
use tokenlyfy_v.Support.{
  ℕ, ◌+◌, ◌-◌, ◌≤◌, List, [], ◌∷◌, ◌++◌, Bool, length, leb, ltb, if◌then◌else◌, take, map, sum_by,
  length-append, length-take, arith, tests, inl, inr, Bool-cases,
}
use tokenlyfy_v.Support.Sort.{sorted}
use tokenlyfy_v.Support.Text.{Text, join_lines}
use tokenlyfy_v.Support.Action.{Action, gets}
use tokenlyfy_v.Memory.Base.{Environment}
use tokenlyfy_v.Memory.Working.{Item, WorkingMemory}

-- The loop: whole contents while they fit, then a cut one where more than 50 characters are left.
unfoldable pub summary_parts : ℕ → ℕ → List Text → List Text
summary_parts max_length current_length [] = []
summary_parts max_length current_length (content ∷ contents) =
    let rest = summary_parts max_length (current_length + length content) contents in
    let remaining = max_length - current_length in
    if leb (current_length + length content) max_length
    then content ∷ rest
    else if ltb 50 remaining
    then (take remaining content ++ 46 ∷ 46 ∷ 46 ∷ []) ∷ []
    else []

module _ ⦃env : Environment⦄ where
  open env use {less, equal}

  -- `sorted(..., key=lambda m: (m.importance, m.timestamp), reverse=True)`
  abbrev pub more_important : Item → Item → Bool
  more_important a b =
      if equal a.importance b.importance
      then ltb b.timestamp a.timestamp
      else less b.importance a.importance

  unfoldable pub get_context_summary : ℕ → Action WorkingMemory Text
  get_context_summary max_length = gets (λ s. elim s.memories [
    | [] ↦
        78 ∷ 111 ∷ 32 ∷ 119 ∷ 111 ∷ 114 ∷ 107 ∷ 105 ∷ 110 ∷ 103 ∷ 32 ∷ 109 ∷ 101 ∷ 109 ∷ 111 ∷ 114
        ∷ 105 ∷ 101 ∷ 115 ∷ 32 ∷ 97 ∷ 118 ∷ 97 ∷ 105 ∷ 108 ∷ 97 ∷ 98 ∷ 108 ∷ 101 ∷ 46 ∷ []
    | m ∷ ms ↦
        (87 ∷ 111 ∷ 114 ∷ 107 ∷ 105 ∷ 110 ∷ 103 ∷ 32 ∷ 77 ∷ 101 ∷ 109 ∷ 111 ∷ 114 ∷ 121 ∷ 32 ∷ 67
          ∷ 111 ∷ 110 ∷ 116 ∷ 101 ∷ 120 ∷ 116 ∷ 58 ∷ 10 ∷ [])
        ++ join_lines
            (summary_parts max_length 0 (map (λ x. x.content) (sorted more_important (m ∷ ms))))
  ])

-- The parts of a summary have at most `max_length` characters together, and the three dots of a cut
-- one.
pub summary_parts_bounded :
    (max_length current_length : ℕ) (contents : List Text)
    → current_length ≤ max_length
    → sum_by length (summary_parts max_length current_length contents) + current_length
      ≤ max_length + 3
unfolding summary_parts
summary_parts_bounded n c [] h = omega arith
summary_parts_bounded n c (t ∷ ts) h = elim (Bool-cases (leb (c + length t) n)) [
  | inl e ↦
      rw e (omega (arith, summary_parts_bounded n (c + length t) ts (omega (arith, tests, e))))
  | inr e ↦ rw e (elim (Bool-cases (ltb 50 (n - c))) [
    | inl f ↦
        rw f
          (omega (arith, length-append (take (n - c) t) (46 ∷ 46 ∷ 46 ∷ []), length-take (n - c) t))
    | inr f ↦ rw f (omega arith)
  ])
]
