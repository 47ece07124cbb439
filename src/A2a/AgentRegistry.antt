-- ===== src/A2a/AgentRegistry.antt =====
-- `AgentRegistry` of protocols/a2a/implementation.py.
use tokenlyfy_v.Support.{
  ℕ, ◌+◌, String, Option, none, some, List, [], ◌∷◌, ◌==◌, ◌≡◌, refl, if◌then◌else◌, arith, length,
  eq_iff,
}
use tokenlyfy_v.Support.Dict
use tokenlyfy_v.Support.Dict.{Dict}

pub record Registration {ℓ} (V : Type ℓ) : Type ℓ where
  pub url : String
  pub metadata : Dict V
  pub registered_at : String

pub record RegistryInfo : Type 0 where
  pub name : String
  pub description : String
  pub protocol : String
  pub type : String
  pub registered_agents : ℕ

pub record AgentRegistry {ℓ} (V : Type ℓ) : Type ℓ where
  pub name : String
  pub description : String
  pub registered_agents : Dict (Registration V)

module _ {ℓ} {V : Type ℓ} where
  -- `metadata or {}`
  unfoldable pub register_agent :
      AgentRegistry V → String → String → Option (Dict V) → (now : String) → AgentRegistry V
  register_agent r agent_name agent_url metadata now = record r {
    registered_agents =
        Dict.put agent_name
          (record {
            url = agent_url;
            metadata = elim metadata [ none ↦ [] | some m ↦ m ];
            registered_at = now;
          })
          r.registered_agents;
  }

  unfoldable pub unregister_agent : AgentRegistry V → String → AgentRegistry V
  unregister_agent r agent_name =
      if Dict.has agent_name r.registered_agents
      then record r { registered_agents = Dict.delete agent_name r.registered_agents }
      else r

  unfoldable pub list_registered : AgentRegistry V → List (String × Registration V)
  list_registered r = r.registered_agents

  unfoldable pub find_agent : AgentRegistry V → String → Option (Registration V)
  find_agent r agent_name = Dict.get agent_name r.registered_agents

  unfoldable pub registry_info : AgentRegistry V → RegistryInfo
  registry_info r = record {
    name = r.name;
    description = r.description;
    protocol = "A2A";
    type = "registry";
    registered_agents = length r.registered_agents;
  }

  length-put :
      (k : String) (v : Registration V) (d : Dict (Registration V))
      → length (Dict.put k v d) ≡ length d + (if Dict.has k d then 0 else 1)
  unfolding Dict.put Dict.has
  length-put k v [] = refl
  length-put k v ((i, w) ∷ d) = ground (arith, length-put k v d)

  -- Registering an agent makes it findable under its name, leaves every other name alone, and
  -- raises the number that `get_info` reports by one unless the name was registered.
  pub register_agent-found :
      (r : AgentRegistry V) (agent_name agent_url j : String) (metadata : Option (Dict V))
      (now : String)
      → let r' = register_agent r agent_name agent_url metadata now in
        (find_agent r' j ≡ (
          if agent_name == j
          then some (record {
            url = agent_url;
            metadata = elim metadata [ none ↦ [] | some m ↦ m ];
            registered_at = now;
          })
          else find_agent r j))
        × ((registry_info r').registered_agents
            ≡ (registry_info r).registered_agents
              + (if Dict.has agent_name r.registered_agents then 0 else 1))
  unfolding register_agent find_agent registry_info
  register_agent-found r agent_name agent_url j metadata now =
      (Dict.get-put agent_name j _ r.registered_agents, length-put agent_name _ r.registered_agents)

  -- A name that was unregistered is not found; every other name is found as before.
  pub find_agent-unregister_agent :
      (r : AgentRegistry V) (agent_name j : String)
      → find_agent (unregister_agent r agent_name) j
        ≡ (if agent_name == j then none else find_agent r j)
  unfolding unregister_agent find_agent
  find_agent-unregister_agent r agent_name j = ground (
    arith,
    Dict.get-delete agent_name j r.registered_agents,
    Dict.has-eq-is_some agent_name r.registered_agents,
    eq_iff agent_name j,
  )
