-- ===== src/Agents/PlanSolve/Parsing.antt =====
-- The tool calls that the executor of agents/plan_solve_agent.py reads in a text.
use mathlib.Core.List.{append_assoc, append-nil}
use tokenlyfy_v.Support.{
  ℕ, ◌-◌, none, some, List, [], ◌∷◌, ◌++◌, true, false, ◌≡◌, refl, sym, ap, ◌∙◌, length, take, drop,
  map, eqb, All, length-append, Option-cases, inl, inr, arith,
}
use tokenlyfy_v.Support.Text.{Text, strip}
use tokenlyfy_v.Support.Find.{starts_with}
use tokenlyfy_v.Agents.PlanSolve.{
  ToolCall, marker, until, is_empty, match_call, calls_from, parse_tool_calls,
}

-- The character does not stand in the text.
abbrev pub IsFree : ℕ → Text → Type 0
IsFree d text = All (λ c. eqb c d ≡ false) text

-- Plain text, and a tool call behind it
pub record Piece : Type 0 where
  pub before : Text
  pub name : Text
  pub parameters : Text

abbrev pub call_text : Piece → Text
call_text p = marker ++ (p.name ++ b':' ∷ (p.parameters ++ b']' ∷ []))

abbrev pub IsPiece : Piece → Type 0
IsPiece p =
    IsFree b'[' p.before
    × IsFree b':' p.name
    × IsFree b']' p.parameters
    × (is_empty p.name ≡ false)
    × (is_empty p.parameters ≡ false)

abbrev pub call_of : Piece → ToolCall
call_of p = record {
  tool_name = strip p.name;
  parameters = strip p.parameters;
  original = call_text p;
}

-- The pieces one behind the other, and plain text at the end
unfoldable pub render : List Piece → Text → Text
render [] tail = tail
render (p ∷ pieces) tail = p.before ++ (call_text p ++ render pieces tail)

pub until_first :
    (d : ℕ) (front rest : Text) → IsFree d front → until d (front ++ d ∷ rest) ≡ some (front, rest)
unfolding until
until_first d [] rest free =
    let same : eqb d d ≡ true = ground arith in
    elim (Option-cases (until d rest)) [
      | inl e ↦ rw (e, same) refl
      | inr (x, e) ↦ rw (e, same) refl
    ]
until_first d (c ∷ front) rest free = rw (until_first d front rest free.1, free.0) refl

take_front : (a b : Text) → take (length a) (a ++ b) ≡ a
take_front [] b = refl
take_front (c ∷ a) b = ap (◌∷◌ c) (take_front a b)

calls_from_behind :
    (skipped after : Text) → calls_from (length skipped) (skipped ++ after) ≡ calls_from 0 after
unfolding calls_from
calls_from_behind [] after = refl
calls_from_behind (c ∷ skipped) after = calls_from_behind skipped after

call_text-append :
    (p : Piece) (after : Text)
    → call_text p ++ after ≡ marker ++ (p.name ++ b':' ∷ (p.parameters ++ b']' ∷ after))
call_text-append p after =
    ap (λ t. marker ++ t)
      (append_assoc p.name (b':' ∷ (p.parameters ++ b']' ∷ [])) after
        ∙ ap (λ t. p.name ++ b':' ∷ t) (append_assoc p.parameters (b']' ∷ []) after))

match_call_first :
    (p : Piece) (after : Text) → IsPiece p → match_call (call_text p ++ after) ≡ some (call_of p)
unfolding match_call starts_with
match_call_first p after (_, colon, bracket, named, given) =
    let size : length (call_text p ++ after) - length after ≡ length (call_text p) =
      omega (arith, length-append (call_text p) after) in
    let original : take (length (call_text p ++ after) - length after) (call_text p ++ after)
        ≡ call_text p =
      ap (λ n. take n (call_text p ++ after)) size ∙ take_front (call_text p) after in
    let name : until b':' ((p.name ++ b':' ∷ (p.parameters ++ b']' ∷ [])) ++ after)
        ≡ some (p.name, p.parameters ++ b']' ∷ after) =
      ap (until b':') (
        append_assoc p.name (b':' ∷ (p.parameters ++ b']' ∷ [])) after
        ∙ ap (λ t. p.name ++ b':' ∷ t) (append_assoc p.parameters (b']' ∷ []) after))
      ∙ until_first b':' p.name (p.parameters ++ b']' ∷ after) colon in
    let parameters : until b']' (p.parameters ++ b']' ∷ after) ≡ some (p.parameters, after) =
      until_first b']' p.parameters after bracket in
    rw (name, parameters, named, given)
      (ap
        (λ t.
          some (record { tool_name = strip p.name; parameters = strip p.parameters; original = t }))
        original)

calls_from-none :
    (c : ℕ) (text : Text)
    → match_call (c ∷ text) ≡ none
    → calls_from 0 (c ∷ text) ≡ calls_from 0 text
unfolding calls_from
calls_from-none c text e = rw (calls_from, e) refl

calls_from-some :
    (c : ℕ) (text : Text) (call : ToolCall)
    → match_call (c ∷ text) ≡ some call
    → calls_from 0 (c ∷ text) ≡ call ∷ calls_from (length call.original - 1) text
unfolding calls_from
calls_from-some c text call e = rw (calls_from, e) refl

-- A call is read, and what follows it is read as if it stood alone.
calls_from-call :
    (p : Piece) (after : Text)
    → IsPiece p
    → calls_from 0 (call_text p ++ after) ≡ call_of p ∷ calls_from 0 after
calls_from-call p after good =
    let body = drop 1 (call_text p) in
    let size : length (call_text p) - 1 ≡ length body = omega arith in
    calls_from-some b'[' (body ++ after) (call_of p) (match_call_first p after good)
    ∙ ap (λ n. call_of p ∷ calls_from n (body ++ after)) size
    ∙ ap (◌∷◌ (call_of p)) (calls_from_behind body after)

calls_from_plain :
    (before text : Text) → IsFree b'[' before → calls_from 0 (before ++ text) ≡ calls_from 0 text
unfolding match_call starts_with
calls_from_plain [] text free = refl
calls_from_plain (c ∷ before) text free =
    let other : eqb b'[' c ≡ false = ground (arith, free.0) in
    calls_from-none c (before ++ text) (rw other refl) ∙ calls_from_plain before text free.1

-- Tool calls between plain texts that have no opening bracket are read one by one, each with its name,
-- its parameters and its whole text, in their order.
pub parse_tool_calls-render :
    (pieces : List Piece) (tail : Text)
    → All IsPiece pieces
    → IsFree b'[' tail
    → parse_tool_calls (render pieces tail) ≡ map call_of pieces
unfolding parse_tool_calls render
parse_tool_calls-render [] tail good free =
    ap (calls_from 0) (sym (append-nil tail)) ∙ calls_from_plain tail [] free
parse_tool_calls-render (p ∷ pieces) tail (good, others) free =
    calls_from_plain p.before _ good.0
    ∙ calls_from-call p (render pieces tail) good
    ∙ ap (◌∷◌ (call_of p)) (parse_tool_calls-render pieces tail others free)
