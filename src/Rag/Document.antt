-- ===== src/Rag/Document.antt =====
-- `Document`, `DocumentChunk`, `process_document(s)`, `filter_chunks` and `add_chunk_metadata` of
-- memory/rag/document.py. The MD5 digest, with the text it is taken of, and the clock are
-- parameters; metadata values are numbers, texts, or of any type `V`.
pub mod Numbering
mod Tests
use tokenlyfy_v.Support.{
  ℕ, ◌+◌, String, Option, none, some, List, [], ◌∷◌, ◌++◌, Bool, map, length, take, leb, keep,
  if◌then◌else◌,
}
use tokenlyfy_v.Support.Text.{Text, strip}
use tokenlyfy_v.Support.Dict
use tokenlyfy_v.Support.Dict.{Dict}
use tokenlyfy_v.Rag.Split.{DocumentProcessor, split_text}

pub data Value {ℓ} (V : Type ℓ) : Type ℓ where
  number : ℕ → Value V
  text : String → Value V
  other : V → Value V

abbrev pub Metadata {ℓ} : Type ℓ → Type ℓ
Metadata V = Dict (Value V)

pub record Document {ℓ} (V : Type ℓ) : Type ℓ where
  pub content : Text
  pub metadata : Metadata V
  pub doc_id : String

pub record DocumentChunk {ℓ} (V : Type ℓ) : Type ℓ where
  pub content : Text
  pub metadata : Metadata V
  pub chunk_id : String
  pub doc_id : Option String
  pub chunk_index : ℕ

-- The digests: of a document's content, and of a chunk's document, index and first 50 characters.
pub record Digests : Type 0 where
  pub of_content : Text → String
  pub of_chunk : Option String → ℕ → Text → String

module _ {ℓ} {V : Type ℓ} where
  -- `metadata.update(entries)`
  unfoldable pub update : Metadata V → Metadata V → Metadata V
  update metadata [] = metadata
  update metadata ((k, v) ∷ entries) = update (Dict.put k v metadata) entries

  unfoldable pub new_document : Digests → Text → Metadata V → Option String → Document V
  new_document digests content metadata doc_id = record {
    content = content;
    metadata = metadata;
    doc_id = elim doc_id [ none ↦ digests.of_content content | some id ↦ id ];
  }

  -- `create_document(content, **metadata)`
  unfoldable pub create_document : Digests → Text → Metadata V → Document V
  unfolding new_document
  create_document digests content metadata = new_document digests content metadata none

  -- `load_text_file` of a file with this content, read at this time
  unfoldable pub load_text_file : Digests → (file_path loaded_at : String) → Text → Document V
  unfolding new_document
  load_text_file digests file_path loaded_at content =
      new_document digests content
        (("source", text file_path)
          ∷ ("type", text "text_file")
          ∷ ("loaded_at", text loaded_at)
          ∷ [])
        none

  unfoldable pub new_chunk :
      Digests → Text → Metadata V → Option String → Option String → ℕ → DocumentChunk V
  new_chunk digests content metadata chunk_id doc_id chunk_index = record {
    content = content;
    metadata = metadata;
    chunk_id = elim chunk_id [
      | none ↦ digests.of_chunk doc_id chunk_index (take 50 content)
      | some id ↦ id
    ];
    doc_id = doc_id;
    chunk_index = chunk_index;
  }

  -- The loop over the enumerated texts, from index `i`; `now i` is the clock at that chunk.
  unfoldable pub number_chunks :
      Digests → (ℕ → String) → Document V → ℕ → ℕ → List Text → List (DocumentChunk V)
  unfolding new_chunk update
  number_chunks digests now document total i [] = []
  number_chunks digests now document total i (content ∷ contents) =
      new_chunk digests content
        (update document.metadata (
          ("doc_id", text document.doc_id)
          ∷ ("chunk_index", number i)
          ∷ ("total_chunks", number total)
          ∷ ("processed_at", text (now i))
          ∷ []))
        none (some document.doc_id) i
      ∷ number_chunks digests now document total (i + 1) contents

  -- `none` where `split_text` runs out of fuel
  unfoldable pub process_document :
      DocumentProcessor → Digests → (ℕ → String) → Document V → Option (List (DocumentChunk V))
  process_document p digests now document = elim (split_text p document.content) [
    | none ↦ none
    | some contents ↦ some (number_chunks digests now document (length contents) 0 contents)
  ]

  unfoldable pub process_documents :
      DocumentProcessor
      → Digests
      → (ℕ → String)
      → List (Document V)
      → Option (List (DocumentChunk V))
  process_documents p digests now [] = some []
  process_documents p digests now (document ∷ documents) =
      let rest = process_documents p digests now documents in
      elim (process_document p digests now document) [
        | none ↦ none
        | some chunks ↦ elim rest [ none ↦ none | some others ↦ some (chunks ++ others) ]
      ]

  unfoldable pub filter_chunks : ℕ → List (DocumentChunk V) → List (DocumentChunk V)
  filter_chunks min_length chunks =
      keep (λ (c : DocumentChunk V). leb min_length (length (strip c.content))) chunks

  unfoldable pub add_chunk_metadata : Metadata V → List (DocumentChunk V) → List (DocumentChunk V)
  unfolding update
  add_chunk_metadata metadata chunks =
      map (λ (c : DocumentChunk V). record c { metadata = update c.metadata metadata }) chunks
