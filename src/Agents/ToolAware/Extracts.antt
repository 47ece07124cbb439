-- ===== src/Agents/ToolAware/Extracts.antt =====
-- What a whole text holds for `stream_run` of agents/tool_aware_agent.py: the text to show, the calls
-- in their order, and an unfinished call at the end.
use mathlib.Core.List.{append_assoc}
use tokenlyfy_v.Support.{
  ℕ, zero, suc, ◌+◌, ◌≤◌, Option, none, some, List, [], ◌∷◌, ◌++◌, ◌≡◌, refl, sym, ap, ◌∙◌, length,
  drop, length-append, length-drop, arith, Option-cases, inl, inr,
}
use tokenlyfy_v.Support.Text.{Text}
use tokenlyfy_v.Support.Find.{codes, find, find_from, find-append, find_fits}
use tokenlyfy_v.Agents.ToolAware.{marker, next_quote, next_depth, scan, find_tool_call_end}

pub data Extracts : Text → Text → List Text → Text → Type 0 where
  no_call :
      {text shown left : Text} {calls : List Text}
      → find marker text ≡ none
      → shown ≡ text
      → calls ≡ []
      → left ≡ []
      → Extracts text shown calls left
  unclosed :
      {text shown left : Text} {calls : List Text}
      → text ≡ shown ++ left
      → find marker text ≡ some (length shown)
      → find_tool_call_end left 0 ≡ none
      → calls ≡ []
      → Extracts text shown calls left
  call :
      {text shown left : Text} {calls : List Text} (before this rest more : Text)
      (others : List Text) (end : ℕ)
      → text ≡ before ++ (this ++ rest)
      → find marker text ≡ some (length before)
      → find_tool_call_end (this ++ rest) 0 ≡ some end
      → length this ≡ suc end
      → shown ≡ before ++ more
      → calls ≡ this ∷ others
      → Extracts rest more others left
      → Extracts text shown calls left

-- Text in front of the first call is shown.
pub Extracts-behind :
    (a text shown left : Text) (calls : List Text)
    → find marker (a ++ text)
      ≡ (elim (find marker text) [ none ↦ none | some i ↦ some (length a + i) ])
    → Extracts text shown calls left
    → Extracts (a ++ text) (a ++ shown) calls left
Extracts-behind a text shown left calls f (no_call h s c l) =
    no_call (f ∙ rw h refl) (ap (◌++◌ a) s) c l
Extracts-behind a text shown left calls f (unclosed whole h e c) =
    unclosed (ap (◌++◌ a) whole ∙ sym (append_assoc a shown left))
      (f ∙ rw (h, length-append a shown) refl) e c
Extracts-behind a text shown left calls f
      (call before this rest more others end whole h e n s c r) =
    call (a ++ before) this rest more others end
      (ap (◌++◌ a) whole ∙ sym (append_assoc a before (this ++ rest)))
      (f ∙ rw (h, length-append a before) refl) e n
      (ap (◌++◌ a) s ∙ sym (append_assoc a before more)) c r

scan-append :
    (text u : Text) (before depth : ℕ) (quote : Option ℕ) (i : ℕ)
    → scan before depth quote text ≡ some i
    → scan before depth quote (text ++ u) ≡ some i
unfolding scan
scan-append [] u before depth quote i h = cc
scan-append (c ∷ text) u before depth quote i h =
    let q = next_quote before quote c in
    elim (Option-cases (scan c (next_depth depth q c) q text)) [
      | inl e ↦ ground (arith, h, e)
      | inr (j, e) ↦ ground (arith, h, e, scan-append text u c (next_depth depth q c) q j e)
    ]

pub drop-append : (n : ℕ) (s u : Text) → n ≤ length s → drop n (s ++ u) ≡ drop n s ++ u
drop-append zero s u h = refl
drop-append (suc n) [] u h = absurd (omega arith)
drop-append (suc n) (c ∷ s) u h = drop-append n s u (omega arith)

scan_fits :
    (text : Text) (before depth : ℕ) (quote : Option ℕ) (i : ℕ)
    → scan before depth quote text ≡ some i
    → suc i ≤ length text
unfolding scan
scan_fits [] before depth quote i h = cc
scan_fits (c ∷ text) before depth quote i h =
    let q = next_quote before quote c in
    elim (Option-cases (scan c (next_depth depth q c) q text)) [
      | inl e ↦ ground (arith, h, e)
      | inr (j, e) ↦ ground (arith, h, e, scan_fits text c (next_depth depth q c) q j e)
    ]

-- The first colon from a place, where there is one.
pub colon_place :
    (text : Text) (start i : ℕ)
    → find_from (codes ":") text start ≡ some i
    → (j : ℕ) × (find (codes ":") (drop start text) ≡ some j)
      × (i ≡ start + j)
      × (suc i ≤ length text)
      × (start ≤ length text)
unfolding find_from
colon_place text start i h = elim (Option-cases (find (codes ":") (drop start text))) [
  | inl e ↦ absurd (ground (arith, h, e))
  | inr (j, e) ↦
      let fits = find_fits (codes ":") (drop start text) j e in
      let same : start + j ≡ i = ground (arith, h, e) in
      (
        j,
        e,
        sym same,
        omega (arith, fits, length-drop start text),
        omega (arith, fits, length-drop start text),
      )
]

colon-append :
    (text u : Text) (start i : ℕ)
    → find_from (codes ":") text start ≡ some i
    → find_from (codes ":") (text ++ u) start ≡ some i
unfolding find_from
colon-append text u start i h =
    let (j, e, same, _, within) = colon_place text start i h in
    rw (find_from, drop-append start text u within, find-append (codes ":") (drop start text) u j e)
      (ap some (sym same))

-- The colon behind the name, and the offset of the end in the body.
pub record IsEnd (text : Text) (end : ℕ) : Type 0 where
  pub colon : ℕ
  pub offset : ℕ
  pub found : find_from (codes ":") text (length marker) ≡ some colon
  pub closed : scan b':' 0 none (drop (colon + 1) text) ≡ some offset
  pub place : end ≡ colon + 1 + offset

pub find_tool_call_end-IsEnd :
    (text : Text) (end : ℕ) → find_tool_call_end text 0 ≡ some end → IsEnd text end
unfolding find_tool_call_end
find_tool_call_end-IsEnd text end h =
    elim (Option-cases (find_from (codes ":") text (length marker))) [
      | inl e ↦ absurd (ground (arith, rw (find_tool_call_end, e) at h))
      | inr (colon, e) ↦ elim (Option-cases (scan b':' 0 none (drop (colon + 1) text))) [
        | inl f ↦ absurd (ground (arith, rw (find_tool_call_end, e, f) at h))
        | inr (i, f) ↦ record {
          colon = colon;
          offset = i;
          found = e;
          closed = f;
          place = ground (arith, rw (find_tool_call_end, e, f) at h);
        }
      ]
    ]

-- The end of a call lies inside the text, and stays where it is however the text goes on.
pub find_tool_call_end_fits :
    (text : Text) (end : ℕ) → find_tool_call_end text 0 ≡ some end → suc end ≤ length text
find_tool_call_end_fits text end h =
    let e = find_tool_call_end-IsEnd text end h in
    omega (
      arith,
      e.place,
      scan_fits (drop (e.colon + 1) text) b':' 0 none e.offset e.closed,
      length-drop (e.colon + 1) text,
    )

pub find_tool_call_end-append :
    (text u : Text) (end : ℕ)
    → find_tool_call_end text 0 ≡ some end
    → find_tool_call_end (text ++ u) 0 ≡ some end
unfolding find_tool_call_end
find_tool_call_end-append text u end h =
    let e = find_tool_call_end-IsEnd text end h in
    let (_, _, _, within, _) = colon_place text (length marker) e.colon e.found in
    rw
      (
        find_tool_call_end,
        colon-append text u (length marker) e.colon e.found,
        drop-append (e.colon + 1) text u (omega (arith, within)),
        scan-append (drop (e.colon + 1) text) u b':' 0 none e.offset e.closed,
      )
      (ap some (sym e.place))
