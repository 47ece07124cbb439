-- ===== src/Rag/Document/Numbering.antt =====
-- What `process_document` writes into the chunks.
use tokenlyfy_v.Support.{
  ℕ, suc, ◌+◌, ◌<◌, String, some, List, [], ◌∷◌, ◌≡◌, refl, ap, map, length, All,
}
use tokenlyfy_v.Support.Text.{Text}
use tokenlyfy_v.Support.Dict
use tokenlyfy_v.Rag.Split.{DocumentProcessor}
use tokenlyfy_v.Rag.Split.Cover.{Covers, Fits, split_text-Covers}
use tokenlyfy_v.Rag.Document.{
  number, text, Document, DocumentChunk, Digests, number_chunks, process_document,
}

module _ {ℓ} {V : Type ℓ} (document : Document V) (total : ℕ) where
  -- The chunks carry the document's identifier, their position from `i` on, and the total.
  abbrev pub AreNumbered : ℕ → List (DocumentChunk V) → Type ℓ
  AreNumbered i [] = Unit
  AreNumbered i (c ∷ chunks) =
      (c.doc_id ≡ some document.doc_id)
      × (c.chunk_index ≡ i)
      × (Dict.get "doc_id" c.metadata ≡ some (text document.doc_id))
      × (Dict.get "chunk_index" c.metadata ≡ some (number i))
      × (Dict.get "total_chunks" c.metadata ≡ some (number total))
      × AreNumbered (i + 1) chunks

  number_chunks-AreNumbered :
      (digests : Digests) (now : ℕ → String) (i : ℕ) (contents : List Text)
      → AreNumbered i (number_chunks digests now document total i contents)
  unfolding number_chunks
  number_chunks-AreNumbered digests now i [] = tt
  number_chunks-AreNumbered digests now i (c ∷ contents) = (
    refl,
    refl,
    simp Dict.get-put,
    simp Dict.get-put,
    simp Dict.get-put,
    number_chunks-AreNumbered digests now (i + 1) contents,
  )

  map-number_chunks :
      (digests : Digests) (now : ℕ → String) (i : ℕ) (contents : List Text)
      → map
          (λ (c : DocumentChunk V). c.content)
          (number_chunks digests now document total i contents)
        ≡ contents
  unfolding number_chunks
  map-number_chunks digests now i [] = refl
  map-number_chunks digests now i (c ∷ contents) =
      ap (◌∷◌ c) (map-number_chunks digests now (i + 1) contents)

  length-number_chunks :
      (digests : Digests) (now : ℕ → String) (i : ℕ) (contents : List Text)
      → length (number_chunks digests now document total i contents) ≡ length contents
  unfolding number_chunks
  length-number_chunks digests now i [] = refl
  length-number_chunks digests now i (c ∷ contents) =
      ap suc (length-number_chunks digests now (i + 1) contents)

module _ {ℓ} {V : Type ℓ} where
  -- With a positive chunk size every document is processed. The contents of its chunks cover its
  -- text without a gap, none is longer than the chunk size, and each chunk carries the document's
  -- identifier, its own position and the number of chunks.
  pub process_document-AreNumbered :
      (p : DocumentProcessor) (digests : Digests) (now : ℕ → String) (document : Document V)
      → 0 < p.chunk_size
      → (chunks : List (DocumentChunk V)) × (process_document p digests now document ≡ some chunks)
        × AreNumbered document (length chunks) 0 chunks
        × Covers document.content 0 (map (λ (c : DocumentChunk V). c.content) chunks)
        × All (Fits p document.content) (map (λ (c : DocumentChunk V). c.content) chunks)
  unfolding process_document
  process_document-AreNumbered p digests now document size =
      let (contents, eq, covers, fits) = split_text-Covers p document.content size in
      let chunks = number_chunks digests now document (length contents) 0 contents in
      let same = map-number_chunks document (length contents) digests now 0 contents in
      let count = length-number_chunks document (length contents) digests now 0 contents in
      (
        chunks,
        rw (eq, process_document) refl,
        rw count (number_chunks-AreNumbered document (length contents) digests now 0 contents),
        rw same covers,
        rw same fits,
      )
