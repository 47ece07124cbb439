-- ===== src/A2a/AgentNetwork/Discovery.antt =====
-- Which agents `AgentNetwork.discover_agents` of protocols/a2a/implementation.py finds.
use tokenlyfy_v.Support.{ℕ, ◌+◌, String, Option, none, some, List, [], ◌∷◌, ◌≡◌, length}
use tokenlyfy_v.Support.Dict
use tokenlyfy_v.Support.Dict.{Dict}
use tokenlyfy_v.Support.Message.{concat}
use tokenlyfy_v.Support.Outcome.{Outcome, ok, raise, Exception}
use tokenlyfy_v.Support.Action.{Action}
use tokenlyfy_v.A2a.AgentNetwork.{
  Scalars, Json, scalar, compound, Info, object, other, Agents, add_agent, discover_from,
}

module _ ⦃scalars : Scalars⦄ {World : Type 0} (rstrip : String → String)
    (describe : Exception → String) (request : String → Action World Info) where
  open scalars use {Scalar, text}

  abbrev pub asked : String → String
  asked url = concat (rstrip url ∷ "/info" ∷ [])

  -- The agents that the addresses give, each with its address, in the order of these. An address
  -- gives an agent where its answer is an object without "error" whose "name" is no list or object.
  pub data Discovers : List String → World → Agents → World → Type 0 where
    ends : (w : World) → Discovers [] w [] w
    finds :
        (url : String) (urls : List String) (w w' last : World) (found : Agents) (info : Dict Json)
        (name : Scalar)
        → request (asked url) w ≡ (ok (object info), w')
        → Dict.get "error" info ≡ none
        → Dict.get "name" info ≡ some (scalar name)
        → Discovers urls w' found last
        → Discovers (url ∷ urls) w ((name, url) ∷ found) last
    refused :
        (url : String) (urls : List String) (w w' last : World) (found : Agents) (info : Dict Json)
        (error : Json)
        → request (asked url) w ≡ (ok (object info), w')
        → Dict.get "error" info ≡ some error
        → Discovers urls w' found last
        → Discovers (url ∷ urls) w found last
    nameless :
        (url : String) (urls : List String) (w w' last : World) (found : Agents) (info : Dict Json)
        → request (asked url) w ≡ (ok (object info), w')
        → Dict.get "name" info ≡ none
        → Discovers urls w' found last
        → Discovers (url ∷ urls) w found last
    unusable :
        (url : String) (urls : List String) (w w' last : World) (found : Agents) (info : Dict Json)
        → request (asked url) w ≡ (ok (object info), w')
        → Dict.get "name" info ≡ some compound
        → Discovers urls w' found last
        → Discovers (url ∷ urls) w found last
    no_object :
        (url : String) (urls : List String) (w w' last : World) (found : Agents)
        → request (asked url) w ≡ (ok other, w')
        → Discovers urls w' found last
        → Discovers (url ∷ urls) w found last
    failed :
        (url : String) (urls : List String) (w w' last : World) (found : Agents) (e : Exception)
        → request (asked url) w ≡ (raise e, w')
        → Discovers urls w' found last
        → Discovers (url ∷ urls) w found last

  -- Each of a list of agents, written one after the other.
  abbrev pub added : Agents → Agents → Agents
  added [] agents = agents
  added ((name, url) ∷ found) agents = added found (add_agent agents name url)

  abbrev Finds : List String → Agents → ℕ → World → ℕ × (Agents × World) → Type 0
  Finds urls agents n w out =
      (found : Agents) × (last : World) × Discovers urls w found last
      × (out ≡ (n + length found, (added found agents, last)))

  -- What `get_info` makes of the end of the request
  abbrev answered : Outcome Info × World → Info × World
  answered r = elim r.0 [
    | ok info ↦ (info, r.1)
    | raise e ↦ (
      object
          (("error", scalar (text (concat ("Failed to get agent info: " ∷ describe e ∷ [])))) ∷ []),
      r.1,
    )
  ]

  module _ (url : String) (urls : List String) (agents : Agents) (n : ℕ) (w w' : World)
      (rest : (agents' : Agents) (m : ℕ)
        → Finds urls agents' m w' (discover_from rstrip describe request urls agents' m w')) where
    abbrev FindsHere : Type 0
    FindsHere =
        Finds (url ∷ urls) agents n w
          (discover_from rstrip describe request (url ∷ urls) agents n w)

    abbrev nobody : Option Scalar
    nobody = none
