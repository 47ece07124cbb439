-- ===== src/Agents/ToolAware/Tests.antt =====
-- The scanner of agents/tool_aware_agent.py on concrete streams.
use tokenlyfy_v.Support.{some, List, [], ◌∷◌, ◌++◌, ◌≡◌, refl, All}
use tokenlyfy_v.Support.Text.{Text}
use tokenlyfy_v.Support.Find.{codes, find, find_from, starts_with}
use tokenlyfy_v.Agents.ToolAware.{
  next_quote, next_depth, closes, scan, find_tool_call_end, parse_from, parse_tool_calls, Progress,
  process_residual, read_stream,
}
use tokenlyfy_v.Agents.ToolAware.Extracts.{Extracts}
use tokenlyfy_v.Agents.ToolAware.Stream.{joined, read_stream-Extracts}
use tokenlyfy_v.Agents.ToolAware.Chunks.{read_stream-chunks}
use tokenlyfy_v.Agents.ToolAware.Calls.{IsOneCall, read_stream-calls}

abbrev hello : List Text
hello = codes "hi [TOO" ∷ codes "L_CALL:note:say ']'] bye" ∷ []

abbrev hello_at_once : List Text
hello_at_once = codes "hi [TOOL_CALL:note:say ']'] bye" ∷ []

program : Unit {0}
unfolding read_stream process_residual find_tool_call_end parse_tool_calls parse_from scan
    next_quote next_depth closes find find_from starts_with
program = tt

-- A bracket between quotes does not close the call, and a marker that two chunks share is found.
hello_calls :
    read_stream [] hello
    ≡ some (record {
      segments = codes "hi " ∷ codes " bye" ∷ [];
      tool_call_texts = codes "[TOOL_CALL:note:say ']']" ∷ [];
      residual = [];
    })
unfolding program
hello_calls = refl

-- A call that the stream leaves open is neither shown nor run.
unclosed_lost :
    read_stream [] (codes "see [TOOL_CALL:note:a" ∷ [])
    ≡ some (record {
      segments = codes "see " ∷ [];
      tool_call_texts = [];
      residual = codes "[TOOL_CALL:note:a";
    })
unfolding program
unclosed_lost = refl

read_stream-Extracts_example :
    (p : Progress) × (read_stream [] hello ≡ some p)
    × Extracts ([] ++ joined hello) (joined p.segments) p.tool_call_texts p.residual
read_stream-Extracts_example = read_stream-Extracts hello []

read_stream-chunks_example :
    (p : Progress) × (p' : Progress) × (read_stream [] hello ≡ some p)
    × (read_stream [] hello_at_once ≡ some p')
    × (joined p.segments ≡ joined p'.segments)
    × (p.tool_call_texts ≡ p'.tool_call_texts)
    × (p.residual ≡ p'.residual)
read_stream-chunks_example = read_stream-chunks hello hello_at_once refl

read_stream-calls_example :
    (p : Progress) × (read_stream [] hello ≡ some p) × All IsOneCall p.tool_call_texts
read_stream-calls_example = read_stream-calls hello
