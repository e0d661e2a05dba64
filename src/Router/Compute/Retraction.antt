-- ===== src/Router/Compute/Retraction.antt =====
-- Lost routes in `ComputeRoutes`: what is retracted, what is held, and what the forwarding table hears.
use nylon.Base.{
  ℕ, ◌≡◌, ◌≢◌, refl, sym, ◌∙◌, ◌⊎◌, Bool, false, List, [], ◌∷◌, ◌++◌, Option, none, some, arith,
  if◌then◌else◌, is_yes, All, All-append,
}
use nylon.Base.Maps.{Map, find, put, find-put, find-cons-none, UniqueKeys}
use nylon.Platform.{Platform}
use nylon.Router.Compute.{
  new_table, announce, announce_calls, must_update, retract, is_lost, blackholed, retract_lost,
  smoothed, compute_routes,
}
use nylon.Router.Feasibility.{update_feasibility}
use nylon.Router.Metric.{inf}
use nylon.Router.Selection.{with_metric}
use nylon.Router.State.{SelRoute, RouterState, Call}

module _ ⦃P : Platform⦄ where
  open P use {Prefix, prefix_eq}

  -- the entry of the final table, from the old one and that of the new table
  abbrev pub settled : Option SelRoute → Option SelRoute → Option SelRoute
  settled none new = new
  settled (some old) new = if is_lost old new then some (blackholed old) else new

  -- the call changes the forwarding entry of the prefix
  abbrev pub is_table_call : Prefix → Call → Bool
  is_table_call p (Call.table_insert_route q r) = is_yes (prefix_eq q p)
  is_table_call p (Call.table_delete_route q) = is_yes (prefix_eq q p)
  is_table_call p (Call.send_route_update _ _) = false
  is_table_call p (Call.send_ack_retract _ _) = false
  is_table_call p (Call.broadcast_send_route_update _) = false
  is_table_call p (Call.request_seqno _ _ _ _) = false
  is_table_call p (Call.broadcast_request_seqno _ _ _) = false
  is_table_call p (Call.expiry_fn _) = false

  abbrev pub Silent : Prefix → List Call → Type 0
  Silent p = All (λ c. is_table_call p c ≡ false)

  settled_step :
      (k p : Prefix) (o : SelRoute) (rest table : Map Prefix SelRoute)
      → find prefix_eq k rest ≡ none
      → settled (find prefix_eq p rest) (
          find prefix_eq p (
            if is_lost o (find prefix_eq k table)
            then put prefix_eq k (blackholed o) table
            else table))
        ≡ settled (find prefix_eq p ((k, o) ∷ rest)) (find prefix_eq p table)
  unfolding find
  settled_step k p o rest table u = ground (arith, find-put prefix_eq k p (blackholed o) table)

  pub find-retract_lost :
      (s : RouterState) (p : Prefix) (olds table : Map Prefix SelRoute)
      → UniqueKeys prefix_eq olds
      → find prefix_eq p (retract_lost s olds table).0
        ≡ settled (find prefix_eq p olds) (find prefix_eq p table)
  unfolding retract_lost
  find-retract_lost s p [] table u = unfold find in refl
  find-retract_lost s p ((k, o) ∷ rest) table u =
      find-retract_lost s p rest _ u.1 ∙ settled_step k p o rest table u.0

  pub announce-routes :
      (s : RouterState) (table : Map Prefix SelRoute) → (announce s table).0.routes ≡ s.routes
  unfolding announce update_feasibility
  announce-routes s [] = refl
  announce-routes s ((p, new) ∷ rest) =
      let old = find prefix_eq p s.routes in
      let must = must_update s.tunables.large_change_threshold old new in
      announce-routes (if must then update_feasibility s new.pub_route else s) rest ∙ ground arith

  pub announce_calls-Silent :
      (threshold : ℕ) (k p : Prefix) (old : Option SelRoute) (new : SelRoute)
      → k ≢ p
      → Silent p (announce_calls threshold k old new)
  unfolding announce_calls
  announce_calls-Silent threshold k p old new n = ground arith

  -- a prefix that the table lacks is not inserted
  pub announce-Silent :
      (s : RouterState) (p : Prefix) (table : Map Prefix SelRoute)
      → find prefix_eq p table ≡ none
      → Silent p (announce s table).1
  unfolding announce
  announce-Silent s p [] h = tt
  announce-Silent s p ((k, new) ∷ rest) h =
      let (n, later) = find-cons-none prefix_eq k p new rest h in
      let must = must_update s.tunables.large_change_threshold (find prefix_eq k s.routes) new in
      All-append (λ c. is_table_call p c ≡ false) _ _
        (announce_calls-Silent s.tunables.large_change_threshold k p (find prefix_eq k s.routes) new
          n)
        (announce-Silent (if must then update_feasibility s new.pub_route else s) p rest later)

  pub retract_calls-Silent :
      (s : RouterState) (k p : Prefix) (lost : Bool) (old : SelRoute)
      → (k ≢ p) ⊎ (lost ≡ false)
      → Silent p
          (if lost then retract s k ++ Call.table_insert_route k (blackholed old) ∷ [] else [])
  unfolding retract
  retract_calls-Silent s k p lost old h = ground arith

  pub settled-none : (old new : Option SelRoute) → settled old new ≡ none → new ≡ none
  settled-none none new h = h
  settled-none (some old) new h = ground arith

  not_lost :
      (k p : Prefix) (o : SelRoute) (rest table : Map Prefix SelRoute)
      → settled (find prefix_eq p ((k, o) ∷ rest)) (find prefix_eq p table) ≡ none
      → (k ≢ p) ⊎ (is_lost o (find prefix_eq k table) ≡ false)
  unfolding find
  not_lost k p o rest table h = ground arith

  -- a prefix that ends up without an entry is not inserted as a blackhole either
  retract_lost-Silent :
      (s : RouterState) (p : Prefix) (olds table : Map Prefix SelRoute)
      → UniqueKeys prefix_eq olds
      → find prefix_eq p (retract_lost s olds table).0 ≡ none
      → Silent p (retract_lost s olds table).1
  unfolding retract_lost
  retract_lost-Silent s p [] table u h = tt
  retract_lost-Silent s p ((k, o) ∷ rest) table u h =
      let lost = is_lost o (find prefix_eq k table) in
      let table' = (if lost then put prefix_eq k (blackholed o) table else table) in
      All-append (λ c. is_table_call p c ≡ false) _ _
        (retract_calls-Silent s k p lost o
          (not_lost k p o rest table (sym (find-retract_lost s p ((k, o) ∷ rest) table u) ∙ h)))
        (retract_lost-Silent s p rest table' u.1 h)

  -- the update that withdraws a route, and the forwarding entry that blocks its prefix
  abbrev pub retraction : SelRoute → Call
  retraction old = Call.broadcast_send_route_update (with_metric old inf).pub_route

  abbrev pub blackhole : Prefix → SelRoute → Call
  blackhole p old = Call.table_insert_route p (blackholed old)

  -- When a held entry is released, so that its prefix leaves the table, no call changes the
  -- forwarding entry of the prefix: the blackhole that the retraction inserted stays.
  pub compute_routes-release-Silent :
      (s : RouterState) (now : ℕ) (p : Prefix)
      → UniqueKeys prefix_eq s.routes
      → find prefix_eq p (compute_routes s now).0.routes ≡ none
      → Silent p (compute_routes s now).1
  unfolding compute_routes
  compute_routes-release-Silent s now p u h =
      let table = new_table s now in
      let s' = (announce (smoothed s now) table).0 in
      let settles = find-retract_lost s' p s.routes table u in
      let absent : find prefix_eq p table ≡ none =
        settled-none (find prefix_eq p s.routes) _ (sym settles ∙ h) in
      All-append (λ c. is_table_call p c ≡ false) _ _
        (announce-Silent (smoothed s now) p table absent)
        (retract_lost-Silent s' p s.routes table u h)
