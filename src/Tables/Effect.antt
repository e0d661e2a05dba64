-- ===== src/Tables/Effect.antt =====
-- What the calls of `ComputeRoutes` do to the entry of one prefix of a table, by core/router_algo.go.
use nylon.Base.{
  ℕ, ◌≡◌, refl, ◌∙◌, Bool, false, List, [], ◌∷◌, ◌++◌, Option, none, some, arith, ite, if_pos,
  if_neg, if◌then◌else◌, inl,
}
use nylon.Base.Maps.{Map, find, put, find-put, UniqueKeys}
use nylon.Platform.{Platform}
use nylon.Router.Compute.{
  announce, announce_calls, must_insert, must_update, retract, is_lost, blackholed, retract_lost,
}
use nylon.Router.Compute.Retraction.{
  is_table_call, Silent, announce_calls-Silent, announce-Silent, retract_calls-Silent,
}
use nylon.Router.Feasibility.{update_feasibility}
use nylon.Router.State.{SelRoute, RouterState, Call}

module _ ⦃P : Platform⦄ where
  open P use {Prefix, prefix_eq}

  -- `value` is what an inserted route leaves in the table under its prefix
  module _ {E : Type 0} (value : SelRoute → Option E) (p : Prefix) where
    unfoldable pub after_call : Call → Option E → Option E
    after_call (Call.table_insert_route q r) e = ite (prefix_eq q p) (value r) e
    after_call (Call.table_delete_route q) e = ite (prefix_eq q p) none e
    after_call (Call.send_route_update _ _) e = e
    after_call (Call.send_ack_retract _ _) e = e
    after_call (Call.broadcast_send_route_update _) e = e
    after_call (Call.request_seqno _ _ _ _) e = e
    after_call (Call.broadcast_request_seqno _ _ _) e = e
    after_call (Call.expiry_fn _) e = e

    unfoldable pub after_calls : List Call → Option E → Option E
    after_calls [] e = e
    after_calls (c ∷ cs) e = after_calls cs (after_call c e)

    pub after_calls-append :
        (cs ds : List Call) (e : Option E)
        → after_calls (cs ++ ds) e ≡ after_calls ds (after_calls cs e)
    unfolding after_calls
    after_calls-append [] ds e = refl
    after_calls-append (c ∷ cs) ds e = after_calls-append cs ds (after_call c e)

    after_call-Silent : (c : Call) (e : Option E) → is_table_call p c ≡ false → after_call c e ≡ e
    unfolding after_call
    after_call-Silent (Call.table_insert_route q r) e h = ground arith
    after_call-Silent (Call.table_delete_route q) e h = ground arith
    after_call-Silent (Call.send_route_update _ _) e h = refl
    after_call-Silent (Call.send_ack_retract _ _) e h = refl
    after_call-Silent (Call.broadcast_send_route_update _) e h = refl
    after_call-Silent (Call.request_seqno _ _ _ _) e h = refl
    after_call-Silent (Call.broadcast_request_seqno _ _ _) e h = refl
    after_call-Silent (Call.expiry_fn _) e h = refl

    pub after_calls-Silent : (cs : List Call) (e : Option E) → Silent p cs → after_calls cs e ≡ e
    unfolding after_calls
    after_calls-Silent [] e h = refl
    after_calls-Silent (c ∷ cs) e h =
        after_calls-Silent cs (after_call c e) h.1 ∙ after_call-Silent c e h.0

    -- the entry after the pass that announces, by the old and the new route of the prefix
    abbrev pub announced_entry : Option SelRoute → Option SelRoute → Option E → Option E
    announced_entry old none e = e
    announced_entry old (some new) e = if must_insert old new then value new else e

    announce_calls-entry :
        (threshold : ℕ) (k : Prefix) (old : Option SelRoute) (new : SelRoute) (e : Option E)
        → k ≡ p
        → after_calls (announce_calls threshold k old new) e ≡ announced_entry old (some new) e
    unfolding announce_calls after_calls after_call
    announce_calls-entry threshold k old new e h = ground arith

    pub announce-entry :
        (s : RouterState) (olds table : Map Prefix SelRoute) (e : Option E)
        → s.routes ≡ olds
        → UniqueKeys prefix_eq table
        → after_calls (announce s table).1 e
          ≡ announced_entry (find prefix_eq p olds) (find prefix_eq p table) e
    unfolding announce find after_calls
    announce-entry s olds [] e same u = refl
    announce-entry s olds ((k, new) ∷ rest) e same u =
        let old = find prefix_eq k s.routes in
        let limit = s.tunables.large_change_threshold in
        let must = must_update limit old new in
        let s' = (if must then update_feasibility s new.pub_route else s) in
        let calls = announce_calls limit k old new in
        let same' : s'.routes ≡ olds = unfold update_feasibility in ground arith in
        after_calls-append calls (announce s' rest).1 e ∙ elim (prefix_eq k p) [
          | yes q ↦
              let absent : find prefix_eq p rest ≡ none = rw (← q) u.0 in
              after_calls-Silent (announce s' rest).1 (after_calls calls e)
                (announce-Silent s' p rest absent)
              ∙ announce_calls-entry limit k old new e q
              ∙ rw (if_pos (prefix_eq k p) q, q, same) refl
          | no n ↦
              announce-entry s' olds rest (after_calls calls e) same' u.1
              ∙ rw
                  (
                    after_calls-Silent calls e (announce_calls-Silent limit k p old new n),
                    if_neg (prefix_eq k p) n,
                  )
                  refl
        ]

    -- the entry after the pass that retracts, by the old route of the prefix and that of the new table
    abbrev pub retracted_entry : Option SelRoute → Option SelRoute → Option E → Option E
    retracted_entry none new e = e
    retracted_entry (some old) new e = if is_lost old new then value (blackholed old) else e

    retract_calls-entry :
        (s : RouterState) (k : Prefix) (lost : Bool) (old : SelRoute) (e : Option E)
        → k ≡ p
        → after_calls
            (if lost then retract s k ++ Call.table_insert_route k (blackholed old) ∷ [] else [])
            e
          ≡ (if lost then value (blackholed old) else e)
    unfolding retract after_calls after_call
    retract_calls-entry s k lost old e h = ground arith

    pub retract_lost-entry :
        (s : RouterState) (olds table : Map Prefix SelRoute) (e : Option E)
        → UniqueKeys prefix_eq olds
        → after_calls (retract_lost s olds table).1 e
          ≡ retracted_entry (find prefix_eq p olds) (find prefix_eq p table) e
    unfolding retract_lost after_calls find
    retract_lost-entry s [] table e u = refl
    retract_lost-entry s ((k, old) ∷ rest) table e u =
        let lost = is_lost old (find prefix_eq k table) in
        let table' = (if lost then put prefix_eq k (blackholed old) table else table) in
        let mine =
          (if lost then retract s k ++ Call.table_insert_route k (blackholed old) ∷ [] else []) in
        after_calls-append mine (retract_lost s rest table').1 e
        ∙ retract_lost-entry s rest table' (after_calls mine e) u.1
        ∙ elim (prefix_eq k p) [
          | yes q ↦
              let absent : find prefix_eq p rest ≡ none = rw (← q) u.0 in
              rw (if_pos (prefix_eq k p) q (some old) (find prefix_eq p rest), absent)
                (retract_calls-entry s k lost old e q ∙ rw q refl)
          | no n ↦
              let same : find prefix_eq p table' ≡ find prefix_eq p table =
                ground (arith, find-put prefix_eq k p (blackholed old) table) in
              rw
                (
                  same,
                  after_calls-Silent mine e (retract_calls-Silent s k p lost old (inl n)),
                  if_neg (prefix_eq k p) n (some old) (find prefix_eq p rest),
                )
                refl
        ]
