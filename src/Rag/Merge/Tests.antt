-- ===== src/Rag/Merge/Tests.antt =====
-- Chunks of two documents, merged at small limits.
use tokenlyfy_v.Support.{ℕ, String, some, List, [], ◌∷◌, ◌≡◌, refl, inl, All, arith}
use tokenlyfy_v.Support.Text.{Text, join_lines}
use tokenlyfy_v.Support.Dict
use tokenlyfy_v.Support.Outcome.{ok}
use tokenlyfy_v.Rag.Document.{DocumentChunk, number}
use tokenlyfy_v.Rag.Merge.{add_one, next_total, joined, merge_from, merge_chunks}
use tokenlyfy_v.Rag.Merge.Laws.{contents, CountsChunks, IsBounded, merge_chunks_keeps_text}

abbrev piece : String → ℕ → Text → DocumentChunk String
piece doc i content = record {
  content = content;
  metadata = [];
  chunk_id = "c";
  doc_id = some doc;
  chunk_index = i;
}

abbrev first : DocumentChunk String
first = piece "d" 0 (97 ∷ [])

abbrev second : DocumentChunk String
second = piece "d" 1 (98 ∷ [])

abbrev foreign : DocumentChunk String
foreign = piece "e" 0 (99 ∷ [])

program : Unit {0}
unfolding add_one next_total joined merge_from merge_chunks Dict.get Dict.put
program = tt

foreign_stays :
    merge_chunks 9 (first ∷ second ∷ foreign ∷ [])
    ≡ ok (
        record first { content = 97 ∷ 10 ∷ 98 ∷ []; metadata = ("total_chunks", number 2) ∷ [] }
        ∷ foreign
        ∷ [])
unfolding program
foreign_stays = refl

no_totals : All CountsChunks (first ∷ second ∷ foreign ∷ [])
unfolding Dict.get
no_totals = (inl refl, (inl refl, (inl refl, tt)))

merge_chunks_keeps_text_example :
    (merged : List (DocumentChunk String)) × (merge_chunks 2 (first ∷ second ∷ foreign ∷ [])
      ≡ ok merged)
    × (join_lines (contents merged) ≡ join_lines (contents (first ∷ second ∷ foreign ∷ [])))
    × All (IsBounded 2 1) merged
merge_chunks_keeps_text_example =
    merge_chunks_keeps_text 2 1 (first ∷ second ∷ foreign ∷ []) no_totals (omega arith)
