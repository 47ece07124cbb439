-- ===== src/Rag/Split/Tests.antt =====
-- A short text in three sentences, split at small sizes, and the theorems of this folder at it.
use Prim.Native.Char.{code}
use tokenlyfy_v.Support.{none, some, List, [], ◌∷◌, ◌≡◌, refl, arith, String, All}
use tokenlyfy_v.Support.Text.{Text, same}
use tokenlyfy_v.Rag.Split.{
  DocumentProcessor, new_processor, default_separators, occurs, scan_back, find_split_point,
  chunk_end, split_from, split_text,
}
use tokenlyfy_v.Rag.Split.Cover.{Covers, Fits, split_text-Covers}

abbrev codes : String → Text
codes String.[] = []
codes (String.◌∷◌ c s) = code c ∷ codes s

abbrev sentences : Text
sentences = codes "ab. cd. ef"

abbrev small : DocumentProcessor
small = record { chunk_size = 5; chunk_overlap = 1; separators = default_separators }

program : Unit {0}
unfolding new_processor occurs same scan_back find_split_point chunk_end split_from split_text
program = tt

small_is_new : new_processor 5 1 (some []) ≡ small
unfolding program
small_is_new = refl

sentences_split :
    split_text small sentences ≡ some (codes "ab." ∷ codes ". cd." ∷ codes ". ef" ∷ [])
unfolding program
sentences_split = refl

point_after_stop : find_split_point sentences 0 5 default_separators ≡ some 3
unfolding program
point_after_stop = refl

no_point : find_split_point sentences 0 2 default_separators ≡ none
unfolding program
no_point = refl

split_text-Covers_example :
    (chunks : List Text) × (split_text small sentences ≡ some chunks)
    × Covers sentences 0 chunks
    × All (Fits small sentences) chunks
split_text-Covers_example = split_text-Covers small sentences (omega arith)
