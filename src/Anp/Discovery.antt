-- ===== src/Anp/Discovery.antt =====
-- `ANPDiscovery` of protocols/anp/implementation.py. The state is its dictionary of services.
-- Metadata values are of any type `V` with Python's `==` on them and the value `None`.
pub mod Laws
mod Tests
use tokenlyfy_v.Support.{
  String, Option, none, some, List, [], ◌∷◌, Bool, true, false, not, ◌==◌, if◌then◌else◌, keep,
}
use tokenlyfy_v.Support.Dict
use tokenlyfy_v.Support.Dict.{Dict}
use tokenlyfy_v.Anp.Service.{ServiceInfo}

abbrev pub Services {ℓ} : Type ℓ → Type ℓ
Services V = Dict (ServiceInfo V)

module _ {ℓ} {V : Type ℓ} where
  pub register_service : Services V → ServiceInfo V → Services V × Bool
  register_service services s = (Dict.put s.service_id s services, true)

  pub unregister_service : Services V → String → Services V × Bool
  unregister_service services id =
      if Dict.has id services then (Dict.delete id services, true) else (services, false)

  pub get_service : Services V → String → Option (ServiceInfo V)
  get_service services id = Dict.get id services

  pub list_all_services : Services V → List (ServiceInfo V)
  list_all_services services = Dict.values services

  -- `if service_type:`, so that the empty text is no filter either.
  by_type : Option String → List (ServiceInfo V) → List (ServiceInfo V)
  by_type none services = services
  by_type (some t) services = if t == "" then services else keep (λ s. s.service_type == t) services

module _ {ℓ} {V : Type ℓ} (equal : V → V → Bool) (null : V) where
  -- `service.metadata.get(key)`, where a missing key reads as `None`
  pub read : String → ServiceInfo V → V
  read key s = elim (Dict.get key s.metadata) [ none ↦ null | some v ↦ v ]

  matches_filters : Dict V → ServiceInfo V → Bool
  matches_filters [] s = true
  matches_filters ((key, value) ∷ filters) s =
      if not (equal (read key s) value) then false else matches_filters filters s

  -- `if filters:`, so that the empty dictionary is no filter.
  by_metadata : Option (Dict V) → List (ServiceInfo V) → List (ServiceInfo V)
  by_metadata none services = services
  by_metadata (some []) services = services
  by_metadata (some (f ∷ fs)) services = keep (matches_filters (f ∷ fs)) services

  pub discover_services : Option String → Option (Dict V) → Services V → List (ServiceInfo V)
  discover_services service_type filters services =
      by_metadata filters (by_type service_type (Dict.values services))
