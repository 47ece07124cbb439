-- ===== src/Agents/Simple/Tests.antt =====
-- agents/simple_agent.py over a model that calls a tool in every answer, in a world that counts its calls.
use tokenlyfy_v.Support.{ℕ, ◌+◌, ◌≤◌, ◌⊎◌, none, some, [], ◌∷◌, ◌++◌, true, ◌≡◌, refl}
use tokenlyfy_v.Support.Text.{Text, same, is_space, strip}
use tokenlyfy_v.Support.Find.{codes, find, is_in, starts_with}
use tokenlyfy_v.Support.Outcome.{Exception, ok, raise}
use tokenlyfy_v.Agents.PlanSolve.{until}
use tokenlyfy_v.Agents.Simple.{
  Kit, SimpleAgent, get, put, delete, has, rename, split_on, convert_parameter_types, infer_action,
  infer_simple_parameters, put_pairs, read_pairs, parse_tool_parameters, run,
}
use tokenlyfy_v.Agents.Simple.Loop.{Counter, run-asked}
use tokenlyfy_v.Agents.Simple.Pairs.{Pair, render, put_all, put_pairs-render}

instance abbrev sample_kit : Kit
sample_kit = record {
  World = ℕ;
  Tool = Unit {0};
  Value = Text;
  text = λ t. t;
  invoke = λ messages w. (ok (codes "[TOOL_CALL:memory:store=x]"), w + 1);
  get_tool = λ name. some tt;
  parameter_types = λ tool. none;
  run_tool = λ tool parameters w. (ok (codes "done"), w);
  loads = λ t. none;
  convert = λ type v. none;
  str_exception = λ e. codes "error";
}

abbrev sample_counter : Counter
sample_counter = record {
  asked = λ w. w;
  counts = λ messages w. refl;
  ignores = λ tool parameters w. refl;
}

abbrev sample_agent : SimpleAgent
sample_agent = record { enable_tool_calling = true; system_prompt = []; history = [] }

program : Unit {0}
unfolding parse_tool_parameters read_pairs put_pairs split_on infer_action infer_simple_parameters
    convert_parameter_types rename has get put delete until is_in find starts_with strip is_space
    same
program = tt

-- The second coin is lost: its piece has no equals sign.
value_with_comma :
    parse_tool_parameters (codes "price") (codes "symbols=BTC,ETH")
    ≡ (codes "symbols", codes "BTC") ∷ []
unfolding program
value_with_comma = refl

stored_memory :
    parse_tool_parameters (codes "memory") (codes "store=x")
    ≡ (codes "action", codes "add") ∷ (codes "content", codes "x") ∷ []
unfolding program
stored_memory = refl

run-asked_example :
    ((run (codes "q") 3 sample_agent 0).1 ≤ 0 + (3 + 1))
    × (((e : Exception) × ((run (codes "q") 3 sample_agent 0).0 ≡ raise e))
        ⊎ ((response : Text) × ((run (codes "q") 3 sample_agent 0).0
              ≡ ok (
                response,
                record sample_agent {
                  history =
                      sample_agent.history
                      ++ record { role = codes "user"; content = codes "q" }
                        ∷ record { role = codes "assistant"; content = response }
                        ∷ [];
                },
              ))))
run-asked_example = run-asked sample_counter (codes "q") 3 sample_agent 0

abbrev limit : Pair
limit = record { key = codes " limit"; value = codes "3" }

abbrev asked_for : Pair
asked_for = record { key = codes "query"; value = codes "x=1 " }

put_pairs-render_example :
    put_pairs (split_on b',' (render asked_for (limit ∷ []))) []
    ≡ put_all (asked_for ∷ limit ∷ []) []
put_pairs-render_example =
    put_pairs-render asked_for (limit ∷ []) []
      (
        (refl, (refl, (refl, (refl, (refl, tt))))),
        (refl, (refl, (refl, (refl, (refl, (refl, (refl, (refl, (refl, (refl, tt)))))))))),
      )
      (
        (
          (refl, (refl, (refl, (refl, (refl, (refl, tt)))))),
          (refl, (refl, (refl, (refl, (refl, (refl, (refl, (refl, tt)))))))),
        ),
        tt,
      )
