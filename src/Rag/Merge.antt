-- ===== src/Rag/Merge.antt =====
-- `merge_chunks` of memory/rag/document.py, over chunks that are distinct objects. The merged chunk
-- is the record that the code writes in place; adding one to a "total_chunks" that is no number
-- raises.
pub mod Laws
mod Tests
use tokenlyfy_v.Support.{
  ℕ, ◌+◌, String, Option, none, some, List, [], ◌∷◌, ◌++◌, Bool, true, false, ◌&&◌, ◌==◌, length,
  leb, if◌then◌else◌,
}
use tokenlyfy_v.Support.Text.{Text}
use tokenlyfy_v.Support.Dict
use tokenlyfy_v.Support.Outcome.{Outcome, ok, raise, type_error, ◌>>=◌}
use tokenlyfy_v.Rag.Document.{Value, number, text, other, Metadata, DocumentChunk}

-- `a == b` on two identifiers, either of which may be `None`
abbrev pub same_id : Option String → Option String → Bool
same_id none none = true
same_id none (some b) = false
same_id (some a) none = false
same_id (some a) (some b) = a == b

module _ {ℓ} {V : Type ℓ} where
  -- `value + 1`
  unfoldable pub add_one : Value V → Outcome (Value V)
  add_one (number n) = ok (number (n + 1))
  add_one _ = raise type_error

  -- `metadata.get("total_chunks", 1) + 1`
  unfoldable pub next_total : Metadata V → Outcome (Value V)
  unfolding add_one
  next_total metadata =
      add_one (elim (Dict.get "total_chunks" metadata) [ none ↦ number 1 | some v ↦ v ])

  unfoldable pub joined : DocumentChunk V → DocumentChunk V → Outcome (DocumentChunk V)
  joined current next = do
    total ← next_total current.metadata
    ok (record current {
      content = current.content ++ b'\n' ∷ next.content;
      metadata = Dict.put "total_chunks" total current.metadata;
    })

  abbrev pub can_merge : ℕ → DocumentChunk V → DocumentChunk V → Bool
  can_merge max_length current next =
      leb (length current.content + length next.content) max_length
      && same_id current.doc_id next.doc_id

  -- The loop over the chunks behind the first; `current` is the chunk that is being built.
  unfoldable pub merge_from :
      ℕ → DocumentChunk V → List (DocumentChunk V) → Outcome (List (DocumentChunk V))
  merge_from max_length current [] = ok (current ∷ [])
  merge_from max_length current (next ∷ chunks) =
      let merged = (do c ← joined current next; merge_from max_length c chunks) in
      let kept = (do rest ← merge_from max_length next chunks; ok (current ∷ rest)) in
      if can_merge max_length current next then merged else kept

  unfoldable pub merge_chunks : ℕ → List (DocumentChunk V) → Outcome (List (DocumentChunk V))
  unfolding merge_from
  merge_chunks max_length [] = ok []
  merge_chunks max_length (c ∷ chunks) = merge_from max_length c chunks
