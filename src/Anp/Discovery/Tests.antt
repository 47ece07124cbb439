-- ===== src/Anp/Discovery/Tests.antt =====
-- A small directory, and the theorems about service descriptions and discovery at it.
use mathlib.Core.List.{Memᴰ}
use tokenlyfy_v.Support.{String, Option, none, some, List, [], ◌∷◌, ◌==◌, ◌≡◌, ◌↔◌, refl, keep}
use tokenlyfy_v.Support.Dict
use tokenlyfy_v.Support.Outcome.{raise, key_error}
use tokenlyfy_v.Anp.Service.{ServiceInfo, new_service, to_dict, from_dict}
use tokenlyfy_v.Anp.Discovery.{
  Services, register_service, unregister_service, get_service, list_all_services, discover_services,
  by_type, by_metadata, matches_filters, read,
}
use tokenlyfy_v.Anp.Discovery.Laws.{
  Call, register, after, directory, HasType, mem-discover_services_iff, get_service-after,
}

abbrev calculator : ServiceInfo String
calculator = record {
  service_id = "calc-1";
  service_type = "calculator";
  endpoint = "http://localhost:9001";
  service_name = "calc-1";
  capabilities = [];
  metadata = ("region", "eu") ∷ [];
}

abbrev search_service : ServiceInfo String
search_service = record {
  service_id = "search-1";
  service_type = "search";
  endpoint = "http://localhost:9002";
  service_name = "Search";
  capabilities = "web" ∷ [];
  metadata = [];
}

program : Unit {0}
unfolding new_service to_dict from_dict register_service unregister_service get_service
    list_all_services discover_services by_type by_metadata matches_filters read after keep Dict.get
    Dict.has Dict.put Dict.delete Dict.values
program = tt

abbrev started : List (Call String)
started = register calculator ∷ register search_service ∷ []

abbrev discover :
    Option String → Option (List (String × String)) → Services String → List (ServiceInfo String)
discover = discover_services ◌==◌ "None"

discover_by_metadata :
    discover none (some (("region", "eu") ∷ [])) (after started []) ≡ calculator ∷ []
unfolding program
discover_by_metadata = refl

discover_empty_type :
    discover (some "") (some []) (after started []) ≡ calculator ∷ search_service ∷ []
unfolding program
discover_empty_type = refl

from_dict_missing :
    from_dict {V = String} (record (to_dict calculator) { endpoint = none })
    ≡ raise (key_error "endpoint")
unfolding program
from_dict_missing = refl

mem-discover_services_iff_example :
    Memᴰ calculator (discover (some "calculator") none (after started [])) ↔ (
      Memᴰ calculator (list_all_services (after started []))
      × HasType (some "calculator") calculator
      × Unit {0})
mem-discover_services_iff_example =
    mem-discover_services_iff ◌==◌ "None" (some "calculator") none (after started []) calculator

left_discovered :
    Memᴰ search_service (discover none none (unregister_service (after started []) "calc-1").0)
unfolding program
left_discovered = Memᴰ.head refl

get_service-after_example :
    get_service (after started []) "calc-1" ≡ directory started (λ _. none) "calc-1"
get_service-after_example = get_service-after started "calc-1"
