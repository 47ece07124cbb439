-- ===== src/Anp/Discovery/Laws.antt =====
-- What clients of `ANPDiscovery` can rely on, over every history of its operations.
use mathlib.Core.List.{Memᴰ}
use mathlib.Core.List.Memᴰ
use tokenlyfy_v.Support.{
  String, Option, none, some, List, [], ◌∷◌, Bool, true, false, ◌==◌, ◌≡◌, ◌≢◌, ◌⊎◌, ◌↔◌, inl, inr,
  refl, All, arith, eq_iff, eq_refl, if◌then◌else◌, Bool-cases, mem_of_mem-keep, mem-keep_of_mem,
  sym, ap,
}
use tokenlyfy_v.Support.Dict
use tokenlyfy_v.Support.Dict.{Dict, dict_laws}
use tokenlyfy_v.Anp.Service.{ServiceInfo}
use tokenlyfy_v.Anp.Discovery.{
  Services, register_service, unregister_service, get_service, list_all_services, by_type, read,
  matches_filters, by_metadata, discover_services,
}

module _ {ℓ} {V : Type ℓ} where
  -- The type that is asked for, if any is asked for, is the service's.
  abbrev pub HasType : Option String → ServiceInfo V → Type 0
  HasType none s = Unit
  HasType (some t) s = (t ≡ "") ⊎ (s.service_type ≡ t)

  mem-by_type_iff :
      (t : Option String) (l : List (ServiceInfo V)) (s : ServiceInfo V)
      → Memᴰ s (by_type t l) ↔ (Memᴰ s l × HasType t s)
  unfolding by_type
  mem-by_type_iff none l s = (λ m. (m, tt), λ h. h.0)
  mem-by_type_iff (some t) l s = elim (Bool-cases (t == "")) [
    | inl e ↦ rw e (λ m. (m, inl ((eq_iff t "").0 e)), λ h. h.0)
    | inr e ↦ rw e (
      λ m.
          let (h, p) = mem_of_mem-keep (λ (x : ServiceInfo V). x.service_type == t) l m in
          (h, inr ((eq_iff _ _).0 p)),
      λ h.
          mem-keep_of_mem (λ (x : ServiceInfo V). x.service_type == t) h.0
            (elim h.1 [
              | inl p ↦ absurd (ground (arith, (eq_iff t "").1 p))
              | inr p ↦ (eq_iff _ _).1 p
            ]),
    )
  ]

module _ {ℓ} {V : Type ℓ} (equal : V → V → Bool) (null : V) where
  -- Every value that is asked for equals the service's value under its key.
  abbrev pub HasMetadata : Option (Dict V) → ServiceInfo V → Type 0
  HasMetadata none s = Unit
  HasMetadata (some filters) s = All (λ f. equal (read equal null f.0 s) f.1 ≡ true) filters

  matches_filters_iff :
      (filters : Dict V) (s : ServiceInfo V)
      → (matches_filters equal null filters s ≡ true) ↔ HasMetadata (some filters) s
  unfolding matches_filters
  matches_filters_iff [] s = (λ _. tt, λ _. refl)
  matches_filters_iff ((k, v) ∷ filters) s = elim (Bool-cases (equal (read equal null k s) v)) [
    | inl e ↦ rw e (
      λ h. (refl, (matches_filters_iff filters s).0 h),
      λ h. (matches_filters_iff filters s).1 h.1,
    )
    | inr e ↦ rw e (λ h. cc, λ h. cc)
  ]

  mem-by_metadata_iff :
      (f : Option (Dict V)) (l : List (ServiceInfo V)) (s : ServiceInfo V)
      → Memᴰ s (by_metadata equal null f l) ↔ (Memᴰ s l × HasMetadata f s)
  unfolding by_metadata
  mem-by_metadata_iff none l s = (λ m. (m, tt), λ h. h.0)
  mem-by_metadata_iff (some []) l s = (λ m. (m, tt), λ h. h.0)
  mem-by_metadata_iff (some (f ∷ fs)) l s = (
    λ m.
        let (h, p) = mem_of_mem-keep (matches_filters equal null (f ∷ fs)) l m in
        (h, (matches_filters_iff (f ∷ fs) s).0 p),
    λ h.
        mem-keep_of_mem (matches_filters equal null (f ∷ fs)) h.0
          ((matches_filters_iff (f ∷ fs) s).1 h.1),
  )

  -- `discover_services` returns exactly the registered services that have the type asked for and
  -- every metadata value asked for; a filter that is missing or empty asks for nothing.
  pub mem-discover_services_iff :
      (t : Option String) (f : Option (Dict V)) (services : Services V) (s : ServiceInfo V)
      → Memᴰ s (discover_services equal null t f services)
        ↔ (Memᴰ s (list_all_services services) × HasType t s × HasMetadata f s)
  unfolding discover_services list_all_services
  mem-discover_services_iff t f services s =
      let (down, up) = mem-by_metadata_iff f (by_type t (Dict.values services)) s in
      let (down', up') = mem-by_type_iff t (Dict.values services) s in
      (
        λ m. let (h, p) = down m in let (h', q) = down' h in (h', q, p),
        λ h. up (up' (h.0, h.1), h.2),
      )

-- The operations that change the services, as a client calls them.
pub data Call {ℓ} (V : Type ℓ) : Type ℓ where
  register : ServiceInfo V → Call V
  unregister : String → Call V

module _ {ℓ} {V : Type ℓ} where
  unfoldable pub after : List (Call V) → Services V → Services V
  after [] services = services
  after (register s ∷ calls) services = after calls (register_service services s).0
  after (unregister id ∷ calls) services = after calls (unregister_service services id).0

  -- Each service stands under its own identifier.
  abbrev IsKeyed : Services V → Type 0
  IsKeyed = All (λ e. e.1.service_id ≡ e.0)

  put-IsKeyed :
      (s : ServiceInfo V) (d : Services V) → IsKeyed d → IsKeyed (Dict.put s.service_id s d)
  unfolding Dict.put
  put-IsKeyed s [] h = (refl, tt)
  put-IsKeyed s ((j, w) ∷ d) h = elim (Bool-cases (j == s.service_id)) [
    | inl e ↦ rw e (sym ((eq_iff _ _).0 e), h.1)
    | inr e ↦ rw e (h.0, put-IsKeyed s d h.1)
  ]

  delete-IsKeyed : (id : String) (d : Services V) → IsKeyed d → IsKeyed (Dict.delete id d)
  unfolding Dict.delete
  delete-IsKeyed id [] h = tt
  delete-IsKeyed id ((j, w) ∷ d) h = elim (Bool-cases (j == id)) [
    | inl e ↦ rw e (delete-IsKeyed id d h.1)
    | inr e ↦ rw e (h.0, delete-IsKeyed id d h.1)
  ]

  after-IsKeyed : (calls : List (Call V)) (d : Services V) → IsKeyed d → IsKeyed (after calls d)
  unfolding after register_service unregister_service
  after-IsKeyed [] d h = h
  after-IsKeyed (register s ∷ calls) d h = after-IsKeyed calls _ (put-IsKeyed s d h)
  after-IsKeyed (unregister id ∷ calls) d h = elim (Bool-cases (Dict.has id d)) [
    | inl e ↦ rw e (after-IsKeyed calls _ (delete-IsKeyed id d h))
    | inr e ↦ rw e (after-IsKeyed calls d h)
  ]

  values-has :
      (d : Services V) (s : ServiceInfo V)
      → IsKeyed d
      → Memᴰ s (Dict.values d)
      → Dict.has s.service_id d ≡ true
  unfolding Dict.values Dict.has
  values-has [] s h m = absurd (Memᴰ.not-nil m)
  values-has ((j, w) ∷ d) s h m = elim (Memᴰ.cases_cons m) [
    | inl e ↦ ground (arith, eq_iff j s.service_id, h.0, ap (λ (x : ServiceInfo V). x.service_id) e)
    | inr later ↦ ground (arith, values-has d s h.1 later)
  ]

  unregister-has : (d : Services V) (id : String) → Dict.has id (unregister_service d id).0 ≡ false
  unfolding unregister_service
  unregister-has d id = ground (arith, Dict.has-delete id id d, eq_refl id)

  -- After any calls, once a service is unregistered no query returns a service of that identifier.
  pub unregister_service_hides :
      (equal : V → V → Bool) (null : V) (calls : List (Call V)) (id : String) (t : Option String)
      (f : Option (Dict V)) (s : ServiceInfo V)
      → Memᴰ s (discover_services equal null t f (unregister_service (after calls []) id).0)
      → s.service_id ≢ id
  unfolding list_all_services after
  unregister_service_hides equal null calls id t f s m same =
      let services = after calls [] in
      let keyed = after-IsKeyed (unregister id ∷ []) services (after-IsKeyed calls [] tt) in
      let left = (unregister_service services id).0 in
      let (listed, _, _) = (mem-discover_services_iff equal null t f left s).0 m in
      cc
        (values-has left s keyed listed, unregister-has services id, ap (λ k. Dict.has k left) same)

module _ {ℓ} {V : Type ℓ} where
  -- The abstract directory: a function from identifiers, with no order and no representation.
  abbrev pub directory :
      List (Call V) → (String → Option (ServiceInfo V)) → String → Option (ServiceInfo V)
  directory [] known = known
  directory (register s ∷ calls) known =
      directory calls (λ id. if s.service_id == id then some s else known id)
  directory (unregister id ∷ calls) known = directory calls (λ j. if id == j then none else known j)

  get-unregister_service :
      (d : Services V) (id j : String)
      → Dict.get j (unregister_service d id).0 ≡ (if id == j then none else Dict.get j d)
  unfolding unregister_service
  get-unregister_service d id j =
      ground (arith, Dict.get-delete id j d, eq_iff id j, Dict.has-eq-is_some id d)

  get_service-after_from :
      (calls : List (Call V)) (d : Services V) (known : String → Option (ServiceInfo V))
      → ((j : String) → Dict.get j d ≡ known j)
      → (id : String) → get_service (after calls d) id ≡ directory calls known id
  unfolding get_service after register_service
  get_service-after_from [] d known same id = same id
  get_service-after_from (register s ∷ calls) d known same id =
      get_service-after_from calls _ _
        (λ j. rw (Dict.get-put s.service_id j s d) (rw (same j) refl)) id
  get_service-after_from (unregister i ∷ calls) d known same id =
      get_service-after_from calls _ _ (λ j. rw (get-unregister_service d i j) (rw (same j) refl))
        id

  -- After any calls `get_service` answers as the abstract directory does.
  pub get_service-after :
      (calls : List (Call V)) (id : String)
      → get_service (after calls []) id ≡ directory calls (λ _. none) id
  unfolding Dict.get
  get_service-after calls id = get_service-after_from calls [] (λ _. none) (λ j. refl) id
