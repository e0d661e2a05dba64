-- ===== src/Config/Endpoints.antt =====
-- The endpoints of a neighbour when the configuration changes: `configuredEndpoints` and
-- `reconcileConfiguredEndpoints` of core/nylon_apply.go.
pub mod Reconciled
use nylon.Base.{
  ℕ, Bool, true, false, not, ◌&&◌, ◌||◌, List, [], ◌∷◌, ◌++◌, Option, none, some, map, is_yes,
  is_some, if◌then◌else◌, ap, arith, sym, ◌≢◌,
}
use nylon.Config.Names.{has}
use nylon.Endpoint.Link.{NylonEndpoint, Transport, new_endpoint}
use nylon.Platform.{Platform}
use nylon.Tunables.{RouterTunables}

-- what `DynamicEndpoint.Parse` and `netip.ParseAddr` make of an endpoint's text
pub data ParsedHost (A : Type 0) : Type 0 where
  bad : ParsedHost A
  domain : ParsedHost A
  address : A → ParsedHost A

-- Texts of endpoints and names of interfaces (never empty), addresses, and the host's routes
-- (`state.FamilyReachable`). `is_v4` tells the two bit lengths apart.
pub record Host : Type 1 where
  pub Value : Type 0
  pub Interface : Type 0
  pub Addr : Type 0
  pub value_eq : Discrete Value
  pub interface_eq : Discrete (Option Interface)
  pub addr_eq : Discrete (Option Addr)
  pub parse : Value → ParsedHost Addr
  pub is_v4 : Addr → Bool
  pub family_reachable : Addr → Bool

pub kinds : Transport.udp ≢ Transport.fake_tcp
kinds e = absurd (ground (arith, e))

-- `conn.Transport` values are equal
unfoldable pub transport_eq : Discrete Transport
transport_eq Transport.udp Transport.udp = yes (λ i. Transport.udp)
transport_eq Transport.udp Transport.fake_tcp = no kinds
transport_eq Transport.fake_tcp Transport.udp = no (λ e. kinds (sym e))
transport_eq Transport.fake_tcp Transport.fake_tcp = yes (λ i. Transport.fake_tcp)

module _ ⦃P : Platform⦄ ⦃H : Host⦄ where
  -- an empty interface and an invalid source are `none`
  pub record LocalBind : Type 0 where
    pub interface_ : Option H.Interface
    pub source : Option H.Addr

  -- `NylonEndpoint` with `DynEP.Value` and `Bind`
  pub record BoundEndpoint : Type 0 where
    pub link : NylonEndpoint
    pub value : H.Value
    pub bind : LocalBind

  pub record EndpointIdentity : Type 0 where
    pub value : H.Value
    pub bind : LocalBind
    pub transport : Transport

  abbrev pub endpoint_key : BoundEndpoint → EndpointIdentity
  endpoint_key ep = record { value = ep.value; bind = ep.bind; transport = ep.link.transport }

  unfoldable pub bind_eq : Discrete LocalBind
  bind_eq a b = elim (H.interface_eq a.interface_ b.interface_) [
    | no n ↦ no (λ e. n (ap (λ (x : LocalBind). x.interface_) e))
    | yes p ↦ elim (H.addr_eq a.source b.source) [
      | no n ↦ no (λ e. n (ap (λ (x : LocalBind). x.source) e))
      | yes q ↦ yes (λ i. record { interface_ = p i; source = q i })
    ]
  ]

  unfoldable pub identity_eq : Discrete EndpointIdentity
  unfolding bind_eq transport_eq
  identity_eq a b = elim (H.value_eq a.value b.value) [
    | no n ↦ no (λ e. n (ap (λ (x : EndpointIdentity). x.value) e))
    | yes p ↦ elim (bind_eq a.bind b.bind) [
      | no n ↦ no (λ e. n (ap (λ (x : EndpointIdentity). x.bind) e))
      | yes q ↦ elim (transport_eq a.transport b.transport) [
        | no n ↦ no (λ e. n (ap (λ (x : EndpointIdentity). x.transport) e))
        | yes r ↦ yes (λ i. record { value = p i; bind = q i; transport = r i })
      ]
    ]
  ]

  unfoldable pub endpoint_family_routable : H.Value → Bool
  endpoint_family_routable ep = elim (H.parse ep) [
    | bad ↦ true
    | domain ↦ true
    | address a ↦ H.family_reachable a
  ]

  unfoldable pub same_ip_family : H.Addr → H.Addr → Bool
  same_ip_family a b = if H.is_v4 a then H.is_v4 b else not (H.is_v4 b)

  unfoldable pub bind_matches_endpoint : LocalBind → H.Value → Bool
  unfolding same_ip_family
  bind_matches_endpoint bind ep = elim bind.source [
    | none ↦ true
    | some source ↦ elim (H.parse ep) [
      | bad ↦ false
      | domain ↦ true
      | address a ↦ same_ip_family source a
    ]
  ]

  -- a new link for a bind and a transport; the counter of links is passed along
  abbrev pub bound : RouterTunables → H.Value → LocalBind → Transport → ℕ → BoundEndpoint
  bound t ep bind transport counter = record {
    link = record (new_endpoint false t counter).0 { transport = transport };
    value = ep;
    bind = bind;
  }

  abbrev pub no_bind : LocalBind
  no_bind = record { interface_ = none; source = none }

  -- the loop without binds
  unfoldable pub unbound_endpoints : RouterTunables → List H.Value → ℕ → List BoundEndpoint × ℕ
  unfolding endpoint_family_routable new_endpoint
  unbound_endpoints t [] counter = ([], counter)
  unbound_endpoints t (ep ∷ eps) counter =
      let ok = endpoint_family_routable ep in
      let (rest, counter') =
        unbound_endpoints t eps (if ok then (new_endpoint false t counter).1 else counter) in
      ((if ok then bound t ep no_bind Transport.udp counter ∷ rest else rest), counter')

  -- the bind can reach the endpoint
  unfoldable pub is_usable : LocalBind → H.Value → Bool
  unfolding bind_matches_endpoint endpoint_family_routable
  is_usable bind ep =
      bind_matches_endpoint bind ep && (is_some bind.source || endpoint_family_routable ep)

  -- the inner loop, over the binds
  unfoldable pub endpoints_on :
      Bool → RouterTunables → H.Value → List LocalBind → ℕ → List BoundEndpoint × ℕ
  unfolding is_usable new_endpoint
  endpoints_on fake t ep [] counter = ([], counter)
  endpoints_on fake t ep (bind ∷ binds) counter =
      let ok = is_usable bind ep in
      let both = fake && is_some bind.interface_ in
      let next = (new_endpoint false t counter).1 in
      let after = (if ok then if both then (new_endpoint false t next).1 else next else counter) in
      let (rest, counter') = endpoints_on fake t ep binds after in
      (
        (if ok
            then bound t ep bind Transport.udp counter
              ∷ (if both then bound t ep bind Transport.fake_tcp next ∷ rest else rest)
            else rest),
        counter',
      )

  unfoldable pub bound_endpoints :
      Bool → RouterTunables → List LocalBind → List H.Value → ℕ → List BoundEndpoint × ℕ
  unfolding endpoints_on
  bound_endpoints fake t binds [] counter = ([], counter)
  bound_endpoints fake t binds (ep ∷ eps) counter =
      let (here, counter') = endpoints_on fake t ep binds counter in
      let (rest, counter'') = bound_endpoints fake t binds eps counter' in (here ++ rest, counter'')

  unfoldable pub configured_endpoints :
      List LocalBind → List H.Value → Bool → RouterTunables → ℕ → List BoundEndpoint × ℕ
  unfolding unbound_endpoints bound_endpoints
  configured_endpoints [] endpoints fake t counter = unbound_endpoints t endpoints counter
  configured_endpoints (bind ∷ binds) endpoints fake t counter =
      bound_endpoints fake t (bind ∷ binds) endpoints counter

  -- the endpoint stays
  unfoldable pub stays : List BoundEndpoint → Bool → BoundEndpoint → Bool
  unfolding identity_eq transport_eq
  stays desired allow ep =
      if ep.link.remote_init
      then not (is_yes (transport_eq ep.link.transport Transport.fake_tcp) && not allow)
      else has identity_eq (endpoint_key ep) (map endpoint_key desired)

  -- the loop over the endpoints: those that stay, and the keys that are `seen`
  unfoldable pub keep_endpoints :
      List BoundEndpoint → Bool → List BoundEndpoint → List BoundEndpoint × List EndpointIdentity
  unfolding stays
  keep_endpoints desired allow [] = ([], [])
  keep_endpoints desired allow (ep ∷ eps) =
      let (kept, seen) = keep_endpoints desired allow eps in
      let ok = stays desired allow ep in
      (
        (if ok then ep ∷ kept else kept),
        (if ok && not ep.link.remote_init then endpoint_key ep ∷ seen else seen),
      )

  -- the loop over the desired endpoints
  unfoldable pub unseen : List EndpointIdentity → List BoundEndpoint → List BoundEndpoint
  unfolding identity_eq
  unseen seen [] = []
  unseen seen (ep ∷ eps) =
      let rest = unseen seen eps in
      if has identity_eq (endpoint_key ep) seen then rest else ep ∷ rest

  unfoldable pub reconcile_configured_endpoints :
      List BoundEndpoint → List BoundEndpoint → Bool → List BoundEndpoint
  unfolding keep_endpoints unseen
  reconcile_configured_endpoints eps desired allow =
      let (kept, seen) = keep_endpoints desired allow eps in kept ++ unseen seen desired
