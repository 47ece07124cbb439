-- ===== src/Rag/Merge/Laws.antt =====
-- What `merge_chunks` keeps, when it returns, and how long its chunks get.
use tokenlyfy_v.Support.{
  ℕ, ◌+◌, ◌≤◌, max, none, some, List, [], ◌∷◌, ◌++◌, true, ◌≡◌, refl, ap, ◌∙◌, map, length,
  length-append, arith, Bool-cases, inl, inr, All, leb→le, ◌⊎◌,
}
use mathlib.Core.List.{append_assoc}
use tokenlyfy_v.Support.Text.{Text, join_lines}
use tokenlyfy_v.Support.Dict
use tokenlyfy_v.Support.Outcome.{ok}
use tokenlyfy_v.Rag.Document.{number, DocumentChunk}
use tokenlyfy_v.Rag.Merge.{
  same_id, add_one, next_total, joined, can_merge, merge_from, merge_chunks,
}

abbrev pub contents {ℓ} : {V : Type ℓ} → List (DocumentChunk V) → List Text
contents = map (λ c. c.content)

-- Two lines in front of others join as one line that holds their break.
join_lines-cons :
    (s t : Text) (rest : List Text)
    → join_lines ((s ++ b'\n' ∷ t) ∷ rest) ≡ join_lines (s ∷ t ∷ rest)
unfolding join_lines
join_lines-cons s t [] = refl
join_lines-cons s t (u ∷ rest) = simp append_assoc

join_lines-tail :
    (s x y : Text) (xs ys : List Text)
    → join_lines (x ∷ xs) ≡ join_lines (y ∷ ys)
    → join_lines (s ∷ x ∷ xs) ≡ join_lines (s ∷ y ∷ ys)
unfolding join_lines
join_lines-tail s x y xs ys h = ap (λ (t : Text). s ++ b'\n' ∷ t) h

module _ {ℓ} {V : Type ℓ} where
  -- The entry "total_chunks", where there is one, is a number.
  abbrev pub CountsChunks : DocumentChunk V → Type ℓ
  CountsChunks c =
      (Dict.get "total_chunks" c.metadata ≡ none)
      ⊎ ((n : ℕ) × (Dict.get "total_chunks" c.metadata ≡ some (number n)))

  joined_returns :
      (c d : DocumentChunk V)
      → CountsChunks c
      → (e : DocumentChunk V) × (joined c d ≡ ok e)
        × CountsChunks e
        × (e.content ≡ c.content ++ b'\n' ∷ d.content)
        × (e.doc_id ≡ c.doc_id)
  unfolding joined next_total add_one
  joined_returns c d (inl h) = (
    record c {
      content = c.content ++ b'\n' ∷ d.content;
      metadata = Dict.put "total_chunks" (number 2) c.metadata;
    },
    rw h refl,
    inr (2, simp Dict.get-put),
    refl,
    refl,
  )
  joined_returns c d (inr (n, h)) = (
    record c {
      content = c.content ++ b'\n' ∷ d.content;
      metadata = Dict.put "total_chunks" (number (n + 1)) c.metadata;
    },
    rw h refl,
    inr (n + 1, simp Dict.get-put),
    refl,
    refl,
  )

  -- One character more than the limit, or the length of one of the given chunks.
  abbrev pub IsBounded : ℕ → ℕ → DocumentChunk V → Type 0
  IsBounded max_length longest c = length c.content ≤ max (max_length + 1) longest

  -- What the loop returns: a first chunk and others, with the text and the bounds of the input.
  record Merged (max_length longest : ℕ) (current : DocumentChunk V)
      (chunks : List (DocumentChunk V)) : Type ℓ where
    first : DocumentChunk V
    others : List (DocumentChunk V)
    returns : merge_from max_length current chunks ≡ ok (first ∷ others)
    text_kept : join_lines (contents (first ∷ others)) ≡ join_lines (contents (current ∷ chunks))
    bounded : All (IsBounded max_length longest) (first ∷ others)

  merge_from-Merged :
      (max_length longest : ℕ) (current : DocumentChunk V) (chunks : List (DocumentChunk V))
      → CountsChunks current
      → All CountsChunks chunks
      → IsBounded max_length longest current
      → All (λ c. length c.content ≤ longest) chunks
      → Merged max_length longest current chunks
  unfolding merge_from
  merge_from-Merged m l c [] k ks b bs = record {
    first = c;
    others = [];
    returns = refl;
    text_kept = refl;
    bounded = (b, tt);
  }
  merge_from-Merged m l c (d ∷ chunks) k ks b bs = elim (Bool-cases (can_merge m c d)) [
    | inl e ↦
        let (j, eq, counts, content, _) = joined_returns c d k in
        let short = leb→le (length c.content + length d.content) m (ground arith) in
        let fits : IsBounded m l j =
          omega (arith, ap length content, length-append c.content (b'\n' ∷ d.content)) in
        let r = merge_from-Merged m l j chunks counts ks.1 fits bs.1 in
        record {
          first = r.first;
          others = r.others;
          returns = rw (e, merge_from, eq) r.returns;
          text_kept =
              r.text_kept ∙ rw content (join_lines-cons c.content d.content (contents chunks));
          bounded = r.bounded;
        }
    | inr e ↦
        let r = merge_from-Merged m l d chunks ks.0 ks.1 (omega (arith, bs.0)) bs.1 in
        record {
          first = c;
          others = r.first ∷ r.others;
          returns = rw (e, merge_from, r.returns) refl;
          text_kept =
              join_lines-tail c.content r.first.content d.content (contents r.others)
                (contents chunks) r.text_kept;
          bounded = (b, r.bounded);
        }
  ]

  -- Where every "total_chunks" is a number or missing, `merge_chunks` returns. The merged contents,
  -- joined by line breaks, are the given contents joined by line breaks, and no merged chunk is
  -- longer than the limit and one character, or than the longest given chunk.
  pub merge_chunks_keeps_text :
      (max_length longest : ℕ) (chunks : List (DocumentChunk V))
      → All CountsChunks chunks
      → All (λ c. length c.content ≤ longest) chunks
      → (merged : List (DocumentChunk V)) × (merge_chunks max_length chunks ≡ ok merged)
        × (join_lines (contents merged) ≡ join_lines (contents chunks))
        × All (IsBounded max_length longest) merged
  unfolding merge_chunks
  merge_chunks_keeps_text m l [] k b = ([], refl, refl, tt)
  merge_chunks_keeps_text m l (c ∷ chunks) k b =
      let r = merge_from-Merged m l c chunks k.0 k.1 (omega (arith, b.0)) b.1 in
      (r.first ∷ r.others, r.returns, r.text_kept, r.bounded)

  -- Two chunks of one document whose lengths add up to exactly the limit become one chunk that is
  -- one character longer than the limit: the line break between them is not counted.
  pub merge_chunks_exceeds_limit :
      (c d : DocumentChunk V)
      → CountsChunks c
      → same_id c.doc_id d.doc_id ≡ true
      → let max_length = length c.content + length d.content in
        (merged : DocumentChunk V) × (merge_chunks max_length (c ∷ d ∷ []) ≡ ok (merged ∷ []))
        × (length merged.content ≡ max_length + 1)
  unfolding merge_chunks
  merge_chunks_exceeds_limit c d k same =
      let (j, eq, counts, content, _) = joined_returns c d k in
      (
        j,
        ground (arith, eq, same),
        omega (arith, ap length content, length-append c.content (b'\n' ∷ d.content)),
      )
