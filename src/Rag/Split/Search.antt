-- ===== src/Rag/Split/Search.antt =====
-- `_find_split_point` finds the last occurrence of the first separator that occurs near the end.
use tokenlyfy_v.Support.{
  ℕ, zero, suc, ◌+◌, ◌-◌, ◌≤◌, ◌<◌, none, some, List, [], ◌∷◌, ◌++◌, Bool, true, false, ◌≡◌, refl,
  ap, length, arith, Bool-cases, Option-cases, inl, inr, All,
}
use native.Mathlib.Decide.{dec_lt}
use tokenlyfy_v.Support.Text.{Text}
use tokenlyfy_v.Rag.Split.{occurs, scan_back, window, find_split_point}

false_below :
    (f : ℕ → Bool) (m j : ℕ) → f m ≡ false → (j < m → f j ≡ false) → j < suc m → f j ≡ false
false_below f m j e below h = elim (dec_lt j m) [
  | yes p ↦ below p
  | no p ↦ let same : j ≡ m = omega arith in rw same e
]

module _ (text : Text) (start stop : ℕ) where
  -- An occurrence inside the window.
  abbrev pub Inside : Text → ℕ → Type 0
  Inside separator i =
      (window start stop ≤ i) × (i + length separator ≤ stop) × (occurs text separator i ≡ true)

  -- The separator does not occur in the window behind `i`.
  abbrev pub NoneBehind : Text → ℕ → Type 0
  NoneBehind separator i = (j : ℕ) → i < j → ¬ Inside separator j

  abbrev pub Absent : Text → Type 0
  Absent separator = (j : ℕ) → ¬ Inside separator j

  scan_back_found :
      (separator : Text) (lo n p : ℕ)
      → scan_back text separator lo n ≡ some p
      → (i : ℕ) × (p ≡ i + length separator)
        × (lo ≤ i)
        × (i < lo + n)
        × (occurs text separator i ≡ true)
        × ((j : ℕ) → i < j → j < lo + n → occurs text separator j ≡ false)
  unfolding scan_back
  scan_back_found separator lo zero p h = cc
  scan_back_found separator lo (suc n) p h = elim (Bool-cases (occurs text separator (lo + n))) [
    | inl e ↦ (lo + n, ground arith, omega arith, omega arith, e, λ j a b. absurd (omega arith))
    | inr e ↦
        let (i, q, a, b, o, later) = scan_back_found separator lo n p (rw e at h) in
        (
          i,
          q,
          a,
          omega arith,
          o,
          λ j c d. false_below (occurs text separator) (lo + n) j e (later j c) (omega arith),
        )
  ]

  scan_back_missed :
      (separator : Text) (lo n : ℕ)
      → scan_back text separator lo n ≡ none
      → (j : ℕ) → lo ≤ j
      → j < lo + n
      → occurs text separator j ≡ false
  unfolding scan_back
  scan_back_missed separator lo zero h j a b = absurd (omega arith)
  scan_back_missed separator lo (suc n) h j a b =
      elim (Bool-cases (occurs text separator (lo + n))) [
        | inl e ↦ cc (rw e at h)
        | inr e ↦
            false_below (occurs text separator) (lo + n) j e
              (scan_back_missed separator lo n (rw e at h) j a) (omega arith)
      ]

  -- The place that `find_split_point` returns: behind the last occurrence, inside the window, of a
  -- separator before which none of the list occurs there.
  pub record IsSplitPoint (separators : List Text) (p : ℕ) : Type 0 where
    pub earlier : List Text
    pub separator : Text
    pub later : List Text
    pub listed : separators ≡ earlier ++ separator ∷ later
    pub preferred : All Absent earlier
    pub at : ℕ
    pub ends : p ≡ at + length separator
    pub found : Inside separator at
    pub last : NoneBehind separator at

  -- A returned split point is the end of the last occurrence, in the last hundred characters of the
  -- chunk, of the first separator of the list that occurs there at all.
  pub find_split_point_sound :
      (separators : List Text) (p : ℕ)
      → find_split_point text start stop separators ≡ some p
      → IsSplitPoint separators p
  unfolding find_split_point
  find_split_point_sound [] p h = cc
  find_split_point_sound (s ∷ separators) p h =
      let lo = window start stop in
      let n = stop + 1 - (length s + lo) in
      elim (Option-cases (scan_back text s lo n)) [
        | inl e ↦
            let r = find_split_point_sound separators p (rw (e, find_split_point) at h) in
            record {
              earlier = s ∷ r.earlier;
              separator = r.separator;
              later = r.later;
              listed = ap (◌∷◌ s) r.listed;
              preferred =
                  (λ j (a, b, o). cc (scan_back_missed s lo n e j a (omega arith)), r.preferred);
              at = r.at;
              ends = r.ends;
              found = r.found;
              last = r.last;
            }
        | inr (q, e) ↦
            let (i, ends, a, b, o, later) = scan_back_found s lo n q e in
            record {
              earlier = [];
              separator = s;
              later = separators;
              listed = refl;
              preferred = tt;
              at = i;
              ends = ground (arith, h, e, ends);
              found = (a, omega arith, o);
              last = λ j c (d, f, g). cc (later j c (omega arith));
            }
      ]

  -- No split point is returned only where no separator of the list occurs there.
  pub find_split_point_complete :
      (separators : List Text)
      → find_split_point text start stop separators ≡ none
      → All Absent separators
  unfolding find_split_point
  find_split_point_complete [] h = tt
  find_split_point_complete (s ∷ separators) h =
      let lo = window start stop in
      let n = stop + 1 - (length s + lo) in
      elim (Option-cases (scan_back text s lo n)) [
        | inl e ↦ (
          λ j (a, b, o). cc (scan_back_missed s lo n e j a (omega arith)),
          find_split_point_complete separators (rw (e, find_split_point) at h),
        )
        | inr (q, e) ↦ cc (rw (e, find_split_point) at h)
      ]
