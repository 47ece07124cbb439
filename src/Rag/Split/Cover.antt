-- ===== src/Rag/Split/Cover.antt =====
-- `_split_text` returns, and its chunks are consecutive slices of the text with no gap.
use native.Mathlib.Decide.{dec_lt}
use tokenlyfy_v.Support.{
  ℕ, zero, suc, ◌+◌, ◌-◌, ◌≤◌, ◌<◌, max, some, List, [], ◌∷◌, ◌≡◌, refl, length, length-take,
  length-drop, drop, arith, Bool-cases, Option-cases, inl, inr, All, leb, tests,
}
use tokenlyfy_v.Support.Text.{Text, slice, same}
use tokenlyfy_v.Rag.Split.{
  DocumentProcessor, chunk_end, find_split_point, split_from, split_text, occurs,
}
use tokenlyfy_v.Rag.Split.Search.{Inside, NoneBehind, find_split_point_sound}

-- The chunks are slices of the text: each begins inside or right behind the one before, and later
-- than that one; the first begins at `start` and the last ends with the text.
pub data Covers (text : Text) : ℕ → List Text → Type 0 where
  last : {start : ℕ} {chunks : List Text} → chunks ≡ drop start text ∷ [] → Covers text start chunks
  next :
      {start : ℕ} {chunks rest : List Text} (stop start' : ℕ)
      → chunks ≡ slice text start (stop - start) ∷ rest
      → start < start'
      → start' ≤ stop
      → stop < length text
      → Covers text start' rest
      → Covers text start chunks

module _ (p : DocumentProcessor) (text : Text) where
  abbrev pub Fits : Text → Type 0
  Fits chunk = length chunk ≤ p.chunk_size

  -- An empty separator occurs everywhere, so its last occurrence is at the end of the window.
  found_after :
      (start stop : ℕ) (separator : Text) (i : ℕ)
      → Inside text start stop separator i
      → NoneBehind text start stop separator i
      → start < stop
      → start < i + length separator
  unfolding occurs same
  found_after start stop [] i (a, b, o) behind h = elim (dec_lt i stop) [
    | yes k ↦ absurd (behind stop k (omega arith, omega arith, refl))
    | no k ↦ omega arith
  ]
  found_after start stop (c ∷ s) i (a, b, o) behind h = omega arith

  chunk_end_bounds :
      (start stop : ℕ)
      → start < stop
      → (start < chunk_end p text start stop) × (chunk_end p text start stop ≤ stop)
  unfolding chunk_end
  chunk_end_bounds start stop h =
      elim (Option-cases (find_split_point text start stop p.separators)) [
        | inl e ↦ rw (e, chunk_end) (omega arith)
        | inr (q, e) ↦
            let r = find_split_point_sound text start stop p.separators q e in
            let after = found_after start stop r.separator r.at r.found r.last h in
            rw (e, chunk_end) (omega (arith, r.ends, after, r.found.1))
      ]

  split_from-Covers :
      (fuel start : ℕ)
      → 0 < p.chunk_size
      → start < length text
      → length text - start < fuel
      → (chunks : List Text) × (split_from p text fuel start ≡ some chunks)
        × Covers text start chunks
        × All Fits chunks
  unfolding split_from
  split_from-Covers zero start size inside enough = absurd (omega arith)
  split_from-Covers (suc fuel) start size inside enough =
      let stop = start + p.chunk_size in
      let point = chunk_end p text start stop in
      let start' = max (start + 1) (point - p.chunk_overlap) in
      let (a, b) = chunk_end_bounds start stop (omega arith) in
      elim (Bool-cases (leb (length text) stop)) [
        | inl e ↦ (
          drop start text ∷ [],
          ground arith,
          last refl,
          (omega (tests, length-drop start text), tt),
        )
        | inr e ↦
            let (chunks, eq, covers, fits) =
              split_from-Covers fuel start' size (omega tests) (omega tests) in
            (
              slice text start (point - start) ∷ chunks,
              ground (arith, eq),
              next point start' refl (omega arith) (omega arith) (omega tests) covers,
              (omega (arith, length-take (point - start) (drop start text)), fits),
            )
      ]

  -- With a positive chunk size `split_text` returns: the fuel is enough, whatever the separators and
  -- the overlap. Its chunks are no longer than the chunk size and cover the text without a gap.
  pub split_text-Covers :
      0 < p.chunk_size
      → (chunks : List Text) × (split_text p text ≡ some chunks)
        × Covers text 0 chunks
        × All Fits chunks
  unfolding split_text
  split_text-Covers size = elim (Bool-cases (leb (length text) p.chunk_size)) [
    | inl e ↦ (text ∷ [], rw e refl, last refl, (omega tests, tt))
    | inr e ↦
        let (chunks, eq, covers, fits) =
          split_from-Covers (length text + 1) 0 size (omega tests) (omega arith) in
        (chunks, rw e eq, covers, fits)
  ]
