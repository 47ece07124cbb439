-- ===== src/Rag/Document/Tests.antt =====
-- `process_document` at a short document.
use tokenlyfy_v.Support.{String, some, List, [], ◌∷◌, ◌≡◌, map, length, All, arith}
use tokenlyfy_v.Rag.Split.{DocumentProcessor, default_separators}
use tokenlyfy_v.Rag.Split.Cover.{Covers, Fits}
use tokenlyfy_v.Rag.Document.{Document, DocumentChunk, Digests, text, process_document}
use tokenlyfy_v.Rag.Document.Numbering.{AreNumbered, process_document-AreNumbered}

abbrev digests : Digests
digests = record { of_content = λ t. "d"; of_chunk = λ id i t. "c" }

abbrev two_per_chunk : DocumentProcessor
two_per_chunk = record { chunk_size = 2; chunk_overlap = 0; separators = default_separators }

abbrev note : Document String
note = record {
  content = 97 ∷ 98 ∷ 99 ∷ [];
  metadata = ("source", text "note.txt") ∷ [];
  doc_id = "d";
}

process_document-AreNumbered_example :
    (chunks : List (DocumentChunk String)) × (process_document two_per_chunk digests
        (λ i. "now")
        note
      ≡ some chunks)
    × AreNumbered note (length chunks) 0 chunks
    × Covers note.content 0 (map (λ (c : DocumentChunk String). c.content) chunks)
    × All (Fits two_per_chunk note.content) (map (λ (c : DocumentChunk String). c.content) chunks)
process_document-AreNumbered_example =
    process_document-AreNumbered two_per_chunk digests (λ i. "now") note (omega arith)
