-- ===== src/Api/Validation/Valid.antt =====
-- Which configurations api/config/v1alpha1/validation.go accepts.
use cube_idp.Base.{
  ◌≡◌, refl, sym, ap, ◌∙◌, ◌≢◌, ◌↔◌, ◌⊎◌, inl, inr, Bool, true, false, Option, none, some, [], ◌++◌,
  arith, false≢true, has_prefix, Text, txt, ◌==◌, ==_iff,
}
use cube_idp.Api.{Config, ClusterSpec, EngineSpec, EngineSource, GatewaySpec, CaSpec}
use cube_idp.Api.Errors.{Libraries, matches_name, matches_name-nil, both_iff}
use cube_idp.Api.Prerequisites.Valid.{AreValidUnits, validate_prerequisites_iff}
use cube_idp.Api.Packs.Valid.{AreValidPacks, validate_packs_iff}
use cube_idp.Api.Validation.{
  name_rules, cluster_rules, ca_rules, kind_rules, url_rules, interval_rules,
  validate_engine_source, provider_rules, source_rules, validate_engine, validate_gateway,
  engine_rules, gateway_rules, validate,
}

-- A property that a part has, if it is there.
abbrev pub IfSet : {A : Type 0} → (P : A → Type 0) → Option A → Type 0
IfSet P none = Unit
IfSet P (some a) = P a

-- The scheme of the URL fits the kind.
abbrev pub FitsKind : (kind url : Text) → Type 0
FitsKind kind url =
    ((kind ≡ txt "oci") × (has_prefix (txt "oci://") url ≡ true))
    ⊎ ((kind ≡ txt "git") × (has_prefix (txt "oci://") url ≡ false))

module _ (libraries : Libraries) where
  pub record IsValidSource (s : EngineSource) : Type 0 where
    pub has_url : s.url ≢ []
    pub fits : FitsKind s.kind s.url
    pub interval : (s.interval ≡ []) ⊎ (libraries.is_duration s.interval ≡ true)

  pub record IsValidEngine (e : EngineSpec) : Type 0 where
    pub provider : e.provider ≡ txt "flux"
    pub source : IfSet IsValidSource e.source

  pub record IsValidConfig (c : Config) : Type 0 where
    pub name : matches_name c.name ≡ true
    pub cluster : IfSet (λ x. x.provider ≡ txt "kind") c.spec.cluster
    pub engine : IfSet IsValidEngine c.spec.engine
    pub gateway :
        IfSet (λ g. (g.domain ≡ []) ⊎ (libraries.subdomain_messages g.domain ≡ [])) c.spec.gateway
    pub ca : IfSet (λ x. x.provider ≡ txt "cube") c.spec.ca
    pub packs : AreValidPacks libraries c.spec.packs
    pub prerequisites : AreValidUnits c.spec.prerequisites

  name_rules_iff : (name : Text) → (name_rules name ≡ []) ↔ (matches_name name ≡ true)
  unfolding name_rules
  name_rules_iff name = by_test (name == []) (==_iff name []) refl
    where
      by_test :
          (empty : Bool)
          → ((name == []) ≡ true) ↔ (name ≡ [])
          → (name == []) ≡ empty
          → (name_rules name ≡ []) ↔ (matches_name name ≡ true)
      by_test true i e =
          let absent : matches_name name ≡ false = ap matches_name (i.0 e) ∙ matches_name-nil in
          ground (arith, e, absent)
      by_test false i e = ground (arith, e)

  kind_iff : (kind : Text) → (kind_rules kind ≡ []) ↔ ((kind ≡ txt "git") ⊎ (kind ≡ txt "oci"))
  unfolding kind_rules
  kind_iff kind = ground (arith, ==_iff kind (txt "git"), ==_iff kind (txt "oci"))

  interval_iff :
      (interval : Text)
      → (interval_rules libraries interval ≡ [])
        ↔ ((interval ≡ []) ⊎ (libraries.is_duration interval ≡ true))
  unfolding interval_rules
  interval_iff interval = ground (arith, ==_iff interval [])

  -- For each kind, what its URLs must be.
  url_iff :
      (kind url : Text)
      → (url_rules kind url ≡ []) ↔ (
          (url ≢ [])
          × (kind ≡ txt "oci" → has_prefix (txt "oci://") url ≡ true)
          × (kind ≡ txt "git" → has_prefix (txt "oci://") url ≡ false))
  unfolding url_rules
  url_iff kind url = ground (arith, ==_iff url [], ==_iff kind (txt "git"), ==_iff kind (txt "oci"))

  fits_of :
      (kind url : Text)
      → (kind ≡ txt "git") ⊎ (kind ≡ txt "oci")
      → (kind ≡ txt "oci" → has_prefix (txt "oci://") url ≡ true)
      → (kind ≡ txt "git" → has_prefix (txt "oci://") url ≡ false)
      → FitsKind kind url
  fits_of kind url (inl e) oci git = inr (e, git e)
  fits_of kind url (inr e) oci git = inl (e, oci e)

  kind_of_fits : (kind url : Text) → FitsKind kind url → (kind ≡ txt "git") ⊎ (kind ≡ txt "oci")
  kind_of_fits kind url (inl (e, h)) = inr e
  kind_of_fits kind url (inr (e, h)) = inl e

  git≢oci : txt "git" ≢ txt "oci"
  unfolding ◌==◌
  git≢oci e = false≢true (ap (λ k. k == txt "oci") e)

  rules_of :
      (kind url : Text)
      → FitsKind kind url
      → (kind ≡ txt "oci" → has_prefix (txt "oci://") url ≡ true)
        × (kind ≡ txt "git" → has_prefix (txt "oci://") url ≡ false)
  rules_of kind url (inl (e, h)) = ((λ o. h), (λ g. absurd (git≢oci (sym g ∙ e))))
  rules_of kind url (inr (e, h)) = ((λ o. absurd (git≢oci (sym e ∙ o))), (λ g. h))

  source_iff : (s : EngineSource) → (validate_engine_source libraries s ≡ []) ↔ IsValidSource s
  unfolding validate_engine_source kind_rules url_rules interval_rules
  source_iff s =
      let all =
        both_iff (kind_rules s.kind) (url_rules s.kind s.url ++ interval_rules libraries s.interval)
          (kind_iff s.kind)
          (both_iff (url_rules s.kind s.url) (interval_rules libraries s.interval)
            (url_iff s.kind s.url) (interval_iff s.interval)) in
      (
        (λ h.
            let (k, (u, i)) = all.0 h in
            record { has_url = u.0; fits = fits_of s.kind s.url k u.1 u.2; interval = i }),
        (λ v. all.1 (
          kind_of_fits s.kind s.url v.fits,
          (let (o, g) = rules_of s.kind s.url v.fits in (v.has_url, o, g), v.interval),
        )),
      )

  provider_iff :
      (provider : Text) → (provider_rules libraries provider ≡ []) ↔ (provider ≡ txt "flux")
  unfolding provider_rules
  provider_iff provider = ground (arith, ==_iff provider (txt "flux"))

  source_rules_iff :
      (source : Option EngineSource)
      → (source_rules libraries source ≡ []) ↔ IfSet IsValidSource source
  unfolding source_rules
  source_rules_iff none = ((λ h. tt), (λ h. refl))
  source_rules_iff (some s) = source_iff s

  engine_iff : (e : EngineSpec) → (validate_engine libraries e ≡ []) ↔ IsValidEngine e
  unfolding validate_engine
  engine_iff e =
      let both =
        both_iff (provider_rules libraries e.provider) (source_rules libraries e.source)
          (provider_iff e.provider) (source_rules_iff e.source) in
      (
        (λ h. let (p, s) = both.0 h in record { provider = p; source = s }),
        (λ v. both.1 (v.provider, v.source)),
      )

  engine_rules_iff :
      (engine : Option EngineSpec)
      → (engine_rules libraries engine ≡ []) ↔ IfSet IsValidEngine engine
  unfolding engine_rules
  engine_rules_iff none = ((λ h. tt), (λ h. refl))
  engine_rules_iff (some e) = engine_iff e

  cluster_rules_iff :
      (cluster : Option ClusterSpec)
      → (cluster_rules cluster ≡ []) ↔ IfSet (λ x. x.provider ≡ txt "kind") cluster
  unfolding cluster_rules
  cluster_rules_iff none = ((λ h. tt), (λ h. refl))
  cluster_rules_iff (some x) = ground (arith, ==_iff x.provider (txt "kind"))

  ca_rules_iff : (ca : Option CaSpec) → (ca_rules ca ≡ []) ↔ IfSet (λ x. x.provider ≡ txt "cube") ca
  unfolding ca_rules
  ca_rules_iff none = ((λ h. tt), (λ h. refl))
  ca_rules_iff (some x) = ground (arith, ==_iff x.provider (txt "cube"))

  gateway_rules_iff :
      (gateway : Option GatewaySpec)
      → (gateway_rules libraries gateway ≡ [])
        ↔ IfSet (λ g. (g.domain ≡ []) ⊎ (libraries.subdomain_messages g.domain ≡ [])) gateway
  unfolding gateway_rules validate_gateway
  gateway_rules_iff none = ((λ h. tt), (λ h. refl))
  gateway_rules_iff (some g) = ground (arith, ==_iff g.domain [])

  -- Validate finds nothing exactly if every part of the configuration is as it should be: a name, the
  -- admitted providers, an engine source whose URL fits its kind and whose interval is a duration,
  -- a domain that is empty or a subdomain, well-formed packs with distinct explicit ids, and valid
  -- prerequisite units with distinct names.
  pub validate_iff : (c : Config) → (validate libraries c ≡ []) ↔ IsValidConfig c
  unfolding validate
  validate_iff c =
      let all = both_iff _ _ (name_rules_iff c.name) (
        both_iff _ _ (cluster_rules_iff c.spec.cluster) (
          both_iff _ _ (engine_rules_iff c.spec.engine) (
            both_iff _ _ (gateway_rules_iff c.spec.gateway) (
              both_iff _ _ (ca_rules_iff c.spec.ca) (
                both_iff _ _ (validate_packs_iff libraries c.spec.packs)
                  (validate_prerequisites_iff c.spec.prerequisites)))))) in
      (
        (λ h.
            let (n, (cl, (e, (g, (ca, (p, u)))))) = all.0 h in
            record {
              name = n;
              cluster = cl;
              engine = e;
              gateway = g;
              ca = ca;
              packs = p;
              prerequisites = u;
            }),
        (λ v.
            all.1
              (v.name, (v.cluster, (v.engine, (v.gateway, (v.ca, (v.packs, v.prerequisites))))))),
      )
