-- ===== src/Anp/Service.antt =====
-- `ServiceInfo` of protocols/anp/implementation.py. The values of its metadata are of any type.
use tokenlyfy_v.Support.{String, Option, none, some, List, [], ◌≡◌, ◌==◌, if◌then◌else◌, arith}
use tokenlyfy_v.Support.Dict.{Dict}
use tokenlyfy_v.Support.Outcome.{Outcome, ok, ◌>>=◌, or_key_error}

pub record ServiceInfo {ℓ} (V : Type ℓ) : Type ℓ where
  pub service_id : String
  pub service_type : String
  pub endpoint : String
  pub service_name : String
  pub capabilities : List String
  pub metadata : Dict V

-- A dictionary as `from_dict` reads it: `none` is a missing key, and for the last three, which
-- `data.get` reads, the value `None` too.
pub record ServiceData {ℓ} (V : Type ℓ) : Type ℓ where
  pub service_id : Option String
  pub service_type : Option String
  pub endpoint : Option String
  pub service_name : Option String
  pub capabilities : Option (List String)
  pub metadata : Option (Dict V)

-- `text or default`: the empty text counts as missing.
text_or : Option String → String → String
text_or none default = default
text_or (some text) default = if text == "" then default else text

-- `items or []`
or_empty {ℓ} : {A : Type ℓ} → Option (List A) → List A
or_empty none = []
or_empty (some items) = items

module _ {ℓ} {V : Type ℓ} where
  unfoldable pub new_service :
      String
      → String
      → String
      → Option String
      → Option (List String)
      → Option (Dict V)
      → ServiceInfo V
  unfolding text_or or_empty
  new_service service_id service_type endpoint service_name capabilities metadata = record {
    service_id = service_id;
    service_type = service_type;
    endpoint = endpoint;
    service_name = text_or service_name service_id;
    capabilities = or_empty capabilities;
    metadata = or_empty metadata;
  }

  unfoldable pub to_dict : ServiceInfo V → ServiceData V
  to_dict s = record {
    service_id = some s.service_id;
    service_type = some s.service_type;
    endpoint = some s.endpoint;
    service_name = some s.service_name;
    capabilities = some s.capabilities;
    metadata = some s.metadata;
  }

  unfoldable pub from_dict : ServiceData V → Outcome (ServiceInfo V)
  from_dict d = do
    service_id ← or_key_error "service_id" d.service_id
    service_type ← or_key_error "service_type" d.service_type
    endpoint ← or_key_error "endpoint" d.endpoint
    ok (new_service service_id service_type endpoint d.service_name d.capabilities d.metadata)

  -- Every service that the constructor builds is read back from its dictionary unchanged, whatever
  -- arguments were left out.
  pub from_dict-to_dict :
      (service_id service_type endpoint : String) (service_name : Option String)
      (capabilities : Option (List String)) (metadata : Option (Dict V))
      → let s = new_service service_id service_type endpoint service_name capabilities metadata in
        from_dict (to_dict s) ≡ ok s
  unfolding from_dict to_dict new_service
  from_dict-to_dict i t e none c m = ground arith
  from_dict-to_dict i t e (some n) c m = ground arith
