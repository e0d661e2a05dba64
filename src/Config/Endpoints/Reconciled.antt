-- ===== src/Config/Endpoints/Reconciled.antt =====
-- What `reconcileConfiguredEndpoints` of core/nylon_apply.go leaves.
use mathlib.Core.List.{append-nil}
use nylon.Base.{
  ◌≡◌, refl, ap, ◌∙◌, Bool, true, false, not, ◌&&◌, ◌||◌, List, [], ◌∷◌, ◌++◌, map, is_yes,
  if◌then◌else◌, arith, All, All-append,
}
use nylon.Config.Endpoints.{
  Host, BoundEndpoint, EndpointIdentity, endpoint_key, identity_eq, transport_eq, stays,
  keep_endpoints, unseen, reconcile_configured_endpoints,
}
use nylon.Config.Names.{has}
use nylon.Config.Names.Members.{has_self, has_same}
use nylon.Endpoint.Link.{Transport}
use nylon.Platform.{Platform}

module _ {A : Type 0} (dec : Discrete A) where
  seen_step :
      (k x : A) (seen old desired : List A) (remote b : Bool)
      → has dec k seen ≡ (has dec k old && has dec k desired)
      → has dec k
          (if (if remote then b else has dec x desired) && not remote then x ∷ seen else seen)
        ≡ (has dec k (if remote then old else x ∷ old) && has dec k desired)
  seen_step k x seen old desired remote b h = ground (arith, has_same dec x k desired)

  unseen_step :
      (k x : A) (seen new desired : List A)
      → has dec k new ≡ (has dec k desired && not (has dec k seen))
      → has dec k (if has dec x seen then new else x ∷ new)
        ≡ (has dec k (x ∷ desired) && not (has dec k seen))
  unseen_step k x seen new desired h = ground (arith, has_same dec x k seen)

module _ ⦃P : Platform⦄ ⦃H : Host⦄ where
  -- the keys of the endpoints that come from the configuration
  abbrev pub configured_keys : List BoundEndpoint → List EndpointIdentity
  configured_keys [] = []
  configured_keys (ep ∷ eps) =
      if ep.link.remote_init then configured_keys eps else endpoint_key ep ∷ configured_keys eps

  abbrev pub keys : List BoundEndpoint → List EndpointIdentity
  keys eps = map endpoint_key eps

  -- the endpoints that the peer opened, without the fake-TCP ones unless they are allowed
  abbrev pub remotes : Bool → List BoundEndpoint → List BoundEndpoint
  remotes allow [] = []
  remotes allow (ep ∷ eps) =
      if ep.link.remote_init
        && (allow || not (is_yes (transport_eq ep.link.transport Transport.fake_tcp)))
      then ep ∷ remotes allow eps
      else remotes allow eps

  -- the configuration opens its own endpoints
  abbrev pub AreLocal : List BoundEndpoint → Type 0
  AreLocal = All (λ ep. ep.link.remote_init ≡ false)

  module _ (desired : List BoundEndpoint) (allow : Bool) where
    has-seen :
        (k : EndpointIdentity) (eps : List BoundEndpoint)
        → has identity_eq k (keep_endpoints desired allow eps).1
          ≡ (has identity_eq k (configured_keys eps) && has identity_eq k (keys desired))
    unfolding keep_endpoints stays
    has-seen k [] = refl
    has-seen k (ep ∷ eps) =
        seen_step identity_eq k (endpoint_key ep) (keep_endpoints desired allow eps).1
          (configured_keys eps) (keys desired) ep.link.remote_init _ (has-seen k eps)

    configured_keys-append :
        (k : EndpointIdentity) (xs ys : List BoundEndpoint)
        → has identity_eq k (configured_keys (xs ++ ys))
          ≡ (has identity_eq k (configured_keys xs) || has identity_eq k (configured_keys ys))
    configured_keys-append k [] ys = refl
    configured_keys-append k (x ∷ xs) ys = ground (arith, configured_keys-append k xs ys)

    has-kept :
        (k : EndpointIdentity) (eps : List BoundEndpoint)
        → has identity_eq k (configured_keys (keep_endpoints desired allow eps).0)
          ≡ has identity_eq k (keep_endpoints desired allow eps).1
    unfolding keep_endpoints
    has-kept k [] = refl
    has-kept k (ep ∷ eps) = ground (arith, has-kept k eps)

    configured_keys-local :
        (b : Bool) (ep : BoundEndpoint) (eps : List BoundEndpoint)
        → ep.link.remote_init ≡ false
        → configured_keys (if b then eps else ep ∷ eps)
          ≡ (if b then configured_keys eps else endpoint_key ep ∷ configured_keys eps)
    configured_keys-local true ep eps h = refl
    configured_keys-local false ep eps h = ground arith

    has-unseen :
        (k : EndpointIdentity) (seen : List EndpointIdentity) (eps : List BoundEndpoint)
        → AreLocal eps
        → has identity_eq k (configured_keys (unseen seen eps))
          ≡ (has identity_eq k (keys eps) && not (has identity_eq k seen))
    unfolding unseen
    has-unseen k seen [] l = refl
    has-unseen k seen (ep ∷ eps) l =
        ap (has identity_eq k)
          (configured_keys-local (has identity_eq (endpoint_key ep) seen) ep (unseen seen eps) l.0)
        ∙ unseen_step identity_eq k (endpoint_key ep) seen (configured_keys (unseen seen eps))
            (keys eps) (has-unseen k seen eps l.1)

    remotes-append :
        (xs ys : List BoundEndpoint)
        → remotes allow (xs ++ ys) ≡ remotes allow xs ++ remotes allow ys
    remotes-append [] ys = refl
    remotes-append (x ∷ xs) ys = ground (arith, remotes-append xs ys)

    remotes-kept :
        (eps : List BoundEndpoint)
        → remotes allow (keep_endpoints desired allow eps).0 ≡ remotes allow eps
    unfolding keep_endpoints stays
    remotes-kept [] = refl
    remotes-kept (ep ∷ eps) = ground (arith, remotes-kept eps)

    remotes-unseen :
        (seen : List EndpointIdentity) (eps : List BoundEndpoint)
        → AreLocal eps
        → remotes allow (unseen seen eps) ≡ []
    unfolding unseen
    remotes-unseen seen [] l = refl
    remotes-unseen seen (ep ∷ eps) l = ground (arith, remotes-unseen seen eps l.1, l.0)

    pub reconcile_configured_endpoints_lem :
        (eps : List BoundEndpoint)
        → AreLocal desired
        → let result = reconcile_configured_endpoints eps desired allow in
          ((k : EndpointIdentity)
            → has identity_eq k (configured_keys result) ≡ has identity_eq k (keys desired))
          × (remotes allow result ≡ remotes allow eps)
    unfolding reconcile_configured_endpoints
    reconcile_configured_endpoints_lem eps l =
        let (kept, seen) = keep_endpoints desired allow eps in
        (
          λ k. ground (
            arith,
            configured_keys-append k kept (unseen seen desired),
            has-kept k eps,
            has-seen k eps,
            has-unseen k seen desired l,
          ),
          remotes-append kept (unseen seen desired)
              ∙ ap (λ r. remotes allow kept ++ r) (remotes-unseen seen desired l)
              ∙ append-nil (remotes allow kept)
              ∙ remotes-kept eps,
        )

    kept-AllStay :
        (eps : List BoundEndpoint)
        → All (λ ep. stays desired allow ep ≡ true) (keep_endpoints desired allow eps).0
    unfolding keep_endpoints
    kept-AllStay [] = tt
    kept-AllStay (ep ∷ eps) = ground (arith, kept-AllStay eps)

    unseen-AllStay :
        (seen : List EndpointIdentity) (eps : List BoundEndpoint)
        → AreLocal eps
        → ((k : EndpointIdentity)
            → has identity_eq k (keys eps) ≡ true
            → has identity_eq k (keys desired) ≡ true)
        → All (λ ep. stays desired allow ep ≡ true) (unseen seen eps)
    unfolding unseen stays
    unseen-AllStay seen [] l h = tt
    unseen-AllStay seen (ep ∷ eps) l h =
        let rest = unseen-AllStay seen eps l.1 (λ k i. h k (ground arith)) in
        let own : is_yes (identity_eq (endpoint_key ep) (endpoint_key ep)) ≡ true =
          has_self identity_eq (endpoint_key ep) in
        let here : has identity_eq (endpoint_key ep) (keys desired) ≡ true =
          h (endpoint_key ep) (ground arith) in
        ground (arith, rest, l.0, here)

    keep-AllStay :
        (eps : List BoundEndpoint)
        → All (λ ep. stays desired allow ep ≡ true) eps
        → (keep_endpoints desired allow eps).0 ≡ eps
    unfolding keep_endpoints
    keep-AllStay [] h = refl
    keep-AllStay (ep ∷ eps) h = ground (arith, keep-AllStay eps h.1, h.0)

    unseen-all :
        (seen : List EndpointIdentity) (eps : List BoundEndpoint)
        → ((k : EndpointIdentity)
            → has identity_eq k (keys eps) ≡ true
            → has identity_eq k seen ≡ true)
        → unseen seen eps ≡ []
    unfolding unseen
    unseen-all seen [] h = refl
    unseen-all seen (ep ∷ eps) h =
        let own : is_yes (identity_eq (endpoint_key ep) (endpoint_key ep)) ≡ true =
          has_self identity_eq (endpoint_key ep) in
        let here : has identity_eq (endpoint_key ep) seen ≡ true =
          h (endpoint_key ep) (ground arith) in
        ground (arith, unseen-all seen eps (λ k i. h k (ground arith)), here)

    -- If the desired endpoints are local, a second reconciliation with the same ones changes nothing.
    pub reconcile_configured_endpoints_idempotent :
        (eps : List BoundEndpoint)
        → AreLocal desired
        → let result = reconcile_configured_endpoints eps desired allow in
          reconcile_configured_endpoints result desired allow ≡ result
    unfolding reconcile_configured_endpoints
    reconcile_configured_endpoints_idempotent eps l =
        let (kept, seen) = keep_endpoints desired allow eps in
        let result = kept ++ unseen seen desired in
        let (same_keys, _) = reconcile_configured_endpoints_lem eps l in
        let stay =
          All-append (λ ep. stays desired allow ep ≡ true) kept (unseen seen desired)
            (kept-AllStay eps) (unseen-AllStay seen desired l (λ k i. i)) in
        let again = keep-AllStay result stay in
        let none_new =
          unseen-all (keep_endpoints desired allow result).1 desired
            (λ k i. ground (arith, has-seen k result, same_keys k, i)) in
        ap (λ r. r ++ unseen (keep_endpoints desired allow result).1 desired) again
        ∙ ap (λ r. result ++ r) none_new
        ∙ append-nil result
