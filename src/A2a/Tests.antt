-- ===== src/A2a/Tests.antt =====
-- A network of four addresses, of which one answers with a name.
use tokenlyfy_v.Support.{ℕ, ◌+◌, String, [], ◌∷◌, ◌==◌, ◌≡◌, refl, if◌then◌else◌}
use tokenlyfy_v.Support.Dict
use tokenlyfy_v.Support.Message.{concat}
use tokenlyfy_v.Support.Outcome.{ok, raise, Exception, value_error}
use tokenlyfy_v.Support.Action.{Action}
use tokenlyfy_v.A2a.AgentNetwork.{
  Scalars, scalar, compound, Info, object, other, new_client, add_agent, named, get_info,
  discover_from, discover_agents,
}
use tokenlyfy_v.A2a.AgentRegistry.{AgentRegistry}

program : Unit {0}
unfolding Dict.get Dict.has concat new_client add_agent named get_info discover_from discover_agents
program = tt

-- JSON without numbers
instance abbrev texts : Scalars
texts = record { Scalar = String; text = λ t. t; same = λ a b. a == b }

-- Addresses without a final slash stay as they are.
abbrev unchanged : String → String
unchanged url = url

abbrev describe : Exception → String
describe e = "e"

abbrev request : String → Action ℕ Info
request url w = (
  if url == "a/info"
      then ok (object (("skills", compound) ∷ ("name", scalar "A") ∷ []))
      else if url == "b/info"
      then ok (object (("error", scalar "busy") ∷ ("name", scalar "B") ∷ []))
      else if url == "c/info"
      then ok other
      else raise value_error,
  w + 1,
)

one_found :
    discover_agents unchanged describe request [] ("a" ∷ "b" ∷ "c" ∷ "d" ∷ []) 0
    ≡ (1, (("A", "a") ∷ [], 4))
unfolding program
one_found = refl

abbrev registry : AgentRegistry String
registry = record {
  name = "r";
  description = "d";
  registered_agents = ("A", record { url = "a"; metadata = []; registered_at = "t" }) ∷ [];
}
