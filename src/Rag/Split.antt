-- ===== src/Rag/Split.antt =====
-- `DocumentProcessor._split_text` and `_find_split_point` of memory/rag/document.py. The three
-- settings of the processor are the record; -1 for "not found" is `none`.
pub mod Search
pub mod Cover
mod Tests
use tokenlyfy_v.Support.{
  ℕ, zero, suc, ◌+◌, ◌-◌, max, Option, none, some, List, [], ◌∷◌, Bool, length, drop, ltb, leb,
  if◌then◌else◌,
}
use tokenlyfy_v.Support.Text.{Text, slice, same}

pub record DocumentProcessor : Type 0 where
  pub chunk_size : ℕ
  pub chunk_overlap : ℕ
  pub separators : List Text

-- `separators or [...]`: the paragraph, the line, "。", ".", " "
abbrev pub default_separators : List Text
default_separators = (10 ∷ 10 ∷ []) ∷ (10 ∷ []) ∷ (0x3002 ∷ []) ∷ (46 ∷ []) ∷ (32 ∷ []) ∷ []

unfoldable pub new_processor : ℕ → ℕ → Option (List Text) → DocumentProcessor
new_processor chunk_size chunk_overlap separators = record {
  chunk_size = chunk_size;
  chunk_overlap = chunk_overlap;
  separators = elim separators [
    | none ↦ default_separators
    | some given ↦ elim given [ [] ↦ default_separators | s ∷ rest ↦ s ∷ rest ]
  ];
}

-- `text[i:i + len(separator)] == separator`
unfoldable pub occurs : Text → Text → ℕ → Bool
occurs text separator i = same (slice text i (length separator)) separator

-- `for i in range(lo + n - 1, lo - 1, -1)`: `n` positions from the last one down to `lo`
unfoldable pub scan_back : Text → Text → ℕ → ℕ → Option ℕ
scan_back text separator lo zero = none
scan_back text separator lo (suc n) =
    if occurs text separator (lo + n)
    then some (lo + n + length separator)
    else scan_back text separator lo n

-- `search_start`: the last 100 characters before `stop`
abbrev pub window : ℕ → ℕ → ℕ
window start stop = max start (stop - 100)

-- The positions run from `stop - len(separator)`, which may be negative, down to `search_start`.
unfoldable pub find_split_point : Text → ℕ → ℕ → List Text → Option ℕ
find_split_point text start stop [] = none
find_split_point text start stop (separator ∷ separators) =
    let lo = window start stop in
    elim (scan_back text separator lo (stop + 1 - (length separator + lo))) [
      | some p ↦ some p
      | none ↦ find_split_point text start stop separators
    ]

-- The end of the chunk that starts at `start`: a split point, or else `stop`.
unfoldable pub chunk_end : DocumentProcessor → Text → ℕ → ℕ → ℕ
chunk_end p text start stop = elim (find_split_point text start stop p.separators) [
  | none ↦ stop
  | some point ↦ point
]

-- The `while` loop; `none` means that the fuel ran out.
unfoldable pub split_from : DocumentProcessor → Text → ℕ → ℕ → Option (List Text)
split_from p text zero start = none
split_from p text (suc fuel) start =
    let stop = start + p.chunk_size in
    let point = chunk_end p text start stop in
    let rest = split_from p text fuel (max (start + 1) (point - p.chunk_overlap)) in
    if ltb start (length text)
    then if leb (length text) stop then some (drop start text ∷ []) else elim rest [
      | none ↦ none
      | some chunks ↦ some (slice text start (point - start) ∷ chunks)
    ]
    else some []

-- Each round moves `start` on, so as many rounds as characters, and one, are enough.
unfoldable pub split_text : DocumentProcessor → Text → Option (List Text)
split_text p text =
    if leb (length text) p.chunk_size
    then some (text ∷ [])
    else split_from p text (length text + 1) 0
