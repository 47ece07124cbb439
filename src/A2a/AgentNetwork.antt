-- ===== src/A2a/AgentNetwork.antt =====
-- `A2AClient.get_info` and `AgentNetwork` of protocols/a2a/implementation.py. The HTTP request is a
-- parameter, over a world that it reads and changes, and so are the values of JSON that are keys of a
-- dict.
pub mod Discovery
use tokenlyfy_v.Support.{
  ℕ, ◌+◌, String, Option, none, some, List, [], ◌∷◌, Bool, not, ◌&&◌, if◌then◌else◌, map,
}
use tokenlyfy_v.Support.Dict
use tokenlyfy_v.Support.Dict.{Dict}
use tokenlyfy_v.Support.Message.{concat}
use tokenlyfy_v.Support.Outcome.{Outcome, ok, raise, Exception, value_error}
use tokenlyfy_v.Support.Action.{Action}

-- The texts, numbers, truth values and the null of JSON, which are hashable, with `==` as dicts
-- compare them
pub record Scalars : Type 1 where
  pub Scalar : Type 0
  pub text : String → Scalar
  pub same : Scalar → Scalar → Bool

-- `A2AClient(url)` as far as the network looks at it
pub record A2aClient : Type 0 where
  pub server_url : String

-- `rstrip` is `url.rstrip("/")`.
unfoldable pub new_client : (rstrip : String → String) → String → A2aClient
new_client rstrip server_url = record { server_url = rstrip server_url }

module _ ⦃scalars : Scalars⦄ where
  open scalars use {Scalar, text, same}

  -- A list and an object are not hashable.
  pub data Json : Type 0 where
    scalar : Scalar → Json
    compound : Json

  -- What `response.json()` returns: an object, or another value
  pub data Info : Type 0 where
    object : Dict Json → Info
    other : Info

  -- `self.agents`, in the order in which the names came
  abbrev pub Agents : Type 0
  Agents = List (Scalar × String)

  pub record AgentEntry : Type 0 where
    pub name : Scalar
    pub url : String

  unfoldable pub add_agent : Agents → Scalar → String → Agents
  add_agent [] agent_name agent_url = (agent_name, agent_url) ∷ []
  add_agent ((name, url) ∷ agents) agent_name agent_url =
      let rest = add_agent agents agent_name agent_url in
      if same name agent_name then (name, agent_url) ∷ agents else (name, url) ∷ rest

  unfoldable pub list_agents : Agents → List AgentEntry
  list_agents agents = map (λ e. record { name = e.0; url = e.1 }) agents

  unfoldable pub url_of : Scalar → Agents → Option String
  url_of agent_name [] = none
  url_of agent_name ((name, url) ∷ agents) =
      if same name agent_name then some url else url_of agent_name agents

  unfoldable pub get_agent : (rstrip : String → String) → Agents → Scalar → Outcome A2aClient
  get_agent rstrip agents agent_name = elim (url_of agent_name agents) [
    | none ↦ raise value_error
    | some url ↦ ok (new_client rstrip url)
  ]

  -- The name that is written. A name that is no key raises TypeError; an answer that is no object
  -- fails the test or raises TypeError; either is caught, and the loop goes on.
  unfoldable pub named : Info → Option Scalar
  named other = none
  named (object info) =
      if Dict.has "name" info && not (Dict.has "error" info)
      then elim (Dict.get "name" info) [
        | none ↦ none
        | some compound ↦ none
        | some (scalar name) ↦ some name
      ]
      else none

  module _ {World : Type 0} (rstrip : String → String) (describe : Exception → String)
      (request : String → Action World Info) where
    unfoldable pub get_info : A2aClient → World → Info × World
    get_info client w =
        let (outcome, w') = request (concat (client.server_url ∷ "/info" ∷ [])) w in
        elim outcome [
          | ok info ↦ (info, w')
          | raise e ↦ (
            object (
                ("error", scalar (text (concat ("Failed to get agent info: " ∷ describe e ∷ []))))
                ∷ []),
            w',
          )
        ]

    -- The loop, on the agents, the count and the world.
    unfoldable pub discover_from : List String → Agents → ℕ → World → ℕ × (Agents × World)
    discover_from [] agents discovered w = (discovered, (agents, w))
    discover_from (url ∷ urls) agents discovered w =
        let (info, w') = get_info (new_client rstrip url) w in
        elim (named info) [
          | none ↦ discover_from urls agents discovered w'
          | some name ↦ discover_from urls (add_agent agents name url) (discovered + 1) w'
        ]

    unfoldable pub discover_agents : Agents → List String → World → ℕ × (Agents × World)
    discover_agents agents urls w = discover_from urls agents 0 w
