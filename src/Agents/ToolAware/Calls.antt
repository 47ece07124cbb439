-- ===== src/Agents/ToolAware/Calls.antt =====
-- What `_parse_tool_calls` of agents/tool_aware_agent.py makes of a call that the stream cut out.
use mathlib.Core.Path.{subst}
use tokenlyfy_v.Support.{
  ℕ, zero, suc, ◌+◌, ◌-◌, ◌≤◌, Option, none, some, List, [], ◌∷◌, ◌++◌, ◌≡◌, refl, sym, ap, ◌∙◌,
  length, take, drop, length-drop, arith, Option-cases, inl, inr, All,
}
use tokenlyfy_v.Support.Text.{Text, slice, strip}
use tokenlyfy_v.Support.Find.{codes, find, starts_with, find_from, find-restrict, find-drop}
use tokenlyfy_v.Agents.ToolAware.{
  marker, next_quote, next_depth, scan, find_tool_call_end, ToolCall, parse_from, parse_tool_calls,
  Progress, read_stream,
}
use tokenlyfy_v.Agents.ToolAware.Stream.{take_all, read_stream-Extracts}
use tokenlyfy_v.Agents.ToolAware.Extracts.{
  Extracts, no_call, unclosed, call, drop-append, IsEnd, find_tool_call_end-IsEnd, colon_place,
}

scan-restrict :
    (text u : Text) (before depth : ℕ) (quote : Option ℕ) (i : ℕ)
    → scan before depth quote (text ++ u) ≡ some i
    → suc i ≤ length text
    → scan before depth quote text ≡ some i
unfolding scan
scan-restrict [] u before depth quote i h k = absurd (omega arith)
scan-restrict (c ∷ text) u before depth quote i h k =
    let q = next_quote before quote c in
    elim (Option-cases (scan c (next_depth depth q c) q (text ++ u))) [
      | inl e ↦ ground (arith, h, e)
      | inr (j, e) ↦ ground (arith, h, e, scan-restrict text u c (next_depth depth q c) q j e)
    ]

IsEnd-restrict :
    (text u : Text) (end : ℕ) → IsEnd (text ++ u) end → length text ≡ suc end → IsEnd text end
unfolding find_from
IsEnd-restrict text u end e n =
    let (j, f, same, _, _) = colon_place (text ++ u) (length marker) e.colon e.found in
    let before : drop (length marker) (text ++ u) ≡ drop (length marker) text ++ u =
      drop-append (length marker) text u (omega (arith, same, e.place)) in
    let behind : drop (e.colon + 1) (text ++ u) ≡ drop (e.colon + 1) text ++ u =
      drop-append (e.colon + 1) text u (omega (arith, e.place)) in
    let colon : find (codes ":") (drop (length marker) text) ≡ some j =
      find-restrict (codes ":") (drop (length marker) text) u j
        (ap (find (codes ":")) (sym before) ∙ f)
        (omega (arith, same, e.place, length-drop (length marker) text)) in
    record {
      colon = e.colon;
      offset = e.offset;
      found = rw (find_from, colon) (ap some (sym same));
      closed =
          scan-restrict (drop (e.colon + 1) text) u b':' 0 none e.offset
            (ap (scan b':' 0 none) (sym behind) ∙ e.closed)
            (omega (arith, e.place, length-drop (e.colon + 1) text));
      place = e.place;
    }

drop-length : (a b : Text) → drop (length a) (a ++ b) ≡ b
drop-length [] b = refl
drop-length (c ∷ a) b = drop-length a b

drop_beyond : (k : ℕ) (s : Text) → length s ≤ k → drop k s ≡ []
drop_beyond zero [] h = refl
drop_beyond zero (c ∷ s) h = absurd (omega arith)
drop_beyond (suc k) [] h = refl
drop_beyond (suc k) (c ∷ s) h = drop_beyond k s (omega arith)

parse_tool_calls_once :
    (this rest : Text) (end : ℕ)
    → find marker (this ++ rest) ≡ some 0
    → find_tool_call_end (this ++ rest) 0 ≡ some end
    → length this ≡ suc end
    → (c : ToolCall) × (parse_tool_calls this ≡ some (c ∷ [])) × (c.original ≡ this)
unfolding parse_tool_calls parse_from find_from find starts_with
parse_tool_calls_once this rest end h e n =
    let x = IsEnd-restrict this rest end (find_tool_call_end-IsEnd (this ++ rest) end e) n in
    let (j, f, same, _, within) = colon_place this (length marker) x.colon x.found in
    let first : find_from marker this 0 ≡ some 0 =
      rw (find_from, find-restrict marker this rest 0 h (omega (arith, within))) refl in
    let after : find_from marker this (x.colon + 1 + x.offset + 1) ≡ none =
      rw (find_from, drop_beyond (x.colon + 1 + x.offset + 1) this (omega (arith, n, x.place)))
        refl in
    let enough : length this + 1 ≡ suc (suc end) = omega (arith, n) in
    let size : x.colon + 1 + x.offset + 1 - 0 ≡ length this = omega (arith, n, x.place) in
    (
      record {
        tool_name = strip (slice this (0 + length marker) (x.colon - (0 + length marker)));
        parameters = strip (slice this (x.colon + 1) x.offset);
        original = slice this 0 (x.colon + 1 + x.offset + 1 - 0);
      },
      ap (λ k. parse_from k this 0) enough
          ∙ rw (parse_from, first, x.found, x.closed, parse_from, after) refl,
      ap (λ k. take k this) size ∙ take_all this,
    )

-- The text is one call, and nothing else.
abbrev pub IsOneCall : Text → Type 0
IsOneCall this = (c : ToolCall) × (parse_tool_calls this ≡ some (c ∷ [])) × (c.original ≡ this)

Extracts-calls :
    {text shown left : Text} {calls : List Text}
    → Extracts text shown calls left
    → All IsOneCall calls
Extracts-calls (no_call f s c l) = subst (All IsOneCall) (sym c) tt
Extracts-calls (unclosed w f e c) = subst (All IsOneCall) (sym c) tt
Extracts-calls (call before this rest more others end w f e n s c x) =
    subst (All IsOneCall) (sym c) (
      parse_tool_calls_once this rest end
          (find-behind before (this ++ rest) (ap (find marker) (sym w) ∙ f)) e n,
      Extracts-calls x,
    )
  where
    find-behind : (a b : Text) → find marker (a ++ b) ≡ some (length a) → find marker b ≡ some 0
    find-behind a b h =
        ap (find marker) (sym (drop-length a b)) ∙ find-drop marker (a ++ b) (length a) h

-- However a text comes in chunks, each call that the stream cuts out is parsed as exactly one call,
-- whose original text is the whole of it: `stream_run` loses no call between the two scanners.
pub read_stream-calls :
    (chunks : List Text)
    → (p : Progress) × (read_stream [] chunks ≡ some p) × All IsOneCall p.tool_call_texts
read_stream-calls chunks =
    let (p, eq, x) = read_stream-Extracts chunks [] in (p, eq, Extracts-calls x)
