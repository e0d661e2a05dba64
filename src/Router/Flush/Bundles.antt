-- ===== src/Router/Flush/Bundles.antt =====
-- The bundles of `flushIO` in core/router.go: what is sent, what still waits, how long they are.
use mathlib.Core.List.{append_assoc, append-nil}
use nylon.Base.{
  ℕ, zero, suc, ◌<◌, ◌≡◌, ◌≢◌, inl, inr, refl, sym, ap, ◌∙◌, Bool, true, false, List, [], ◌∷◌, ◌++◌,
  map, length, length-append, ◌==◌, if◌then◌else◌, arith, Bool-cases, All, some,
}
use nylon.Platform.{Platform}
use nylon.Router.Flush.{
  fill, Ny, seqno_request, route_update, ack_retract, next_bundle, Flushed, flush_loop,
  message_count,
}
use nylon.Router.Flush.Filling.{total, IsShort, empty_bundle, fill_lem, join_kept, concat}
use nylon.Router.Pending.{DedupCache, IoPending}

module _ ⦃P : Platform⦄ where
  module _ ⦃C : DedupCache⦄ where
    -- the messages that wait, in the order in which they are visited
    abbrev pub messages : IoPending → List Ny
    messages nio =
        map seqno_request nio.seqno_req
        ++ (map route_update nio.updates ++ map ack_retract nio.acks)

    module _ (size : Ny → ℕ) (safe_mtu : ℕ) (send : List Ny → Bool)
        (positive : (m : Ny) → 0 < size m) where
      -- one bundle of the messages, and the entry with the others
      record Bundled (nio : IoPending) (r : List Ny × ℕ × IoPending) : Type 0 where
        kept : r.0 ++ messages r.2 ≡ messages nio
        measured : r.1 ≡ total size r.0
        short : IsShort size safe_mtu r.0
        done : r.1 ≡ 0 → messages r.2 ≡ []

      if-Bundled :
          (nio : IoPending) (b : Bool) (x y : List Ny × ℕ × IoPending)
          → (b ≡ true → Bundled nio x)
          → (b ≡ false → Bundled nio y)
          → Bundled nio (if b then x else y)
      if-Bundled nio true x y h h' = h refl
      if-Bundled nio false x y h h' = h' refl

      next_bundle-Bundled : (nio : IoPending) → Bundled nio (next_bundle size safe_mtu send nio)
      unfolding next_bundle
      next_bundle-Bundled nio =
          let reqs = fill size safe_mtu seqno_request nio.seqno_req [] 0 in
          let ups = fill size safe_mtu route_update nio.updates reqs.bundle reqs.t_length in
          let f = fill_lem size safe_mtu seqno_request positive nio.seqno_req [] 0 refl in
          let g =
            fill_lem size safe_mtu route_update positive nio.updates reqs.bundle reqs.t_length
              f.measured in
          let h =
            fill_lem size safe_mtu ack_retract positive nio.acks ups.bundle ups.t_length
              g.measured in
          let short = f.short (inr (omega arith)) in
          let updates = map route_update nio.updates in
          let acks = map ack_retract nio.acks in
          let first : reqs.full ≡ false → reqs.bundle ≡ map seqno_request nio.seqno_req =
            λ e. sym (append-nil reqs.bundle) ∙ rw (f.done e) at f.kept in
          let second : reqs.full ≡ false → ups.full ≡ false → ups.bundle ≡ reqs.bundle ++ updates =
            λ e e'. sym (append-nil ups.bundle) ∙ rw (g.done e') at g.kept in
          let third = fill size safe_mtu ack_retract nio.acks ups.bundle ups.t_length in
          let last : third.t_length ≡ 0 → map ack_retract third.left ≡ [] = λ z.
            elim (Bool-cases third.full) [
              | inl e ↦ absurd (h.started e z)
              | inr e ↦ rw (h.done e) refl
            ] in
          let all : reqs.full ≡ false → (reqs.bundle ++ updates) ++ acks ≡ messages nio = λ e.
            append_assoc reqs.bundle updates acks ∙ ap (λ l. l ++ (updates ++ acks)) (first e) in
          if-Bundled nio reqs.full _ _
            (λ e. record {
              kept =
                  join_kept reqs.bundle (map seqno_request reqs.left)
                    (map seqno_request nio.seqno_req) (updates ++ acks) f.kept;
              measured = f.measured;
              short = short;
              done = λ z. absurd (f.started e z);
            })
            (λ e.
              if-Bundled nio ups.full _ _
                (λ e'. record {
                  kept = rw (f.done e) (
                      join_kept ups.bundle (map route_update ups.left) (reqs.bundle ++ updates) acks
                        g.kept
                      ∙ all e);
                  measured = g.measured;
                  short = g.short short;
                  done = λ z. absurd (g.started e' z);
                })
                (λ e'. record {
                  kept =
                      rw (f.done e, g.done e') (h.kept ∙ ap (λ l. l ++ acks) (second e e') ∙ all e);
                  measured = h.measured;
                  short = h.short (g.short short);
                  done = λ z. rw (f.done e, g.done e') (last z);
                }))

      -- what a flush sends and what it leaves
      pub record FlushedWell (nio : IoPending) (r : Flushed size safe_mtu send) : Type 0 where
        pub kept : concat r.sent ++ messages r.waiting ≡ messages nio
        pub short : All (IsShort size safe_mtu) r.sent
        pub done : r.ok ≡ true → messages r.waiting ≡ []
        pub taken : r.ok ≡ true → All (λ b. send b ≡ true) r.sent

      -- a bundle takes at least one message
      fewer :
          (nio : IoPending) (r : List Ny × ℕ × IoPending)
          → Bundled nio r
          → r.1 ≢ 0
          → length (messages r.2) < length (messages nio)
      fewer nio ([], t, nio') b n = absurd (n b.measured)
      fewer nio (m ∷ ms, t, nio') b n =
          omega (arith, ap length b.kept, length-append ms (messages nio'))

      nothing_sent :
          (nio : IoPending) (r : List Ny × ℕ × IoPending)
          → Bundled nio r
          → r.1 ≡ 0
          → [] ≡ messages nio
      nothing_sent nio (bundle, t, nio') b z =
          rw (empty_bundle size safe_mtu (λ m. m) positive bundle (sym b.measured ∙ z), b.done z) at
            b.kept

      flush_loop_lem :
          (fuel : ℕ) (nio : IoPending)
          → length (messages nio) < fuel
          → (r : Flushed size safe_mtu send) × (flush_loop size safe_mtu send fuel nio ≡ some r)
            × FlushedWell nio r
      unfolding flush_loop
      flush_loop_lem zero nio enough = elim enough [ ]
      flush_loop_lem (suc fuel) nio enough =
          let (bundle, t, nio') = next_bundle size safe_mtu send nio in
          let b = next_bundle-Bundled nio in
          elim (Bool-cases (t == 0)) [
            | inl e ↦
                let none_left : messages nio' ≡ [] = b.done (ground arith) in
                (
                  record { sent = []; waiting = nio'; ok = true },
                  rw (e, flush_loop) refl,
                  record {
                    kept =
                        none_left
                        ∙ nothing_sent nio (next_bundle size safe_mtu send nio) b (ground arith);
                    short = tt;
                    done = λ _. none_left;
                    taken = λ _. tt;
                  },
                )
            | inr e ↦ elim (Bool-cases (send bundle)) [
              | inl f ↦
                  let less = fewer nio (next_bundle size safe_mtu send nio) b (ground arith) in
                  let (r, g, w) = flush_loop_lem fuel nio' (omega (arith, less, enough)) in
                  (
                    record { sent = bundle ∷ r.sent; waiting = r.waiting; ok = r.ok },
                    rw (e, f, g, flush_loop) refl,
                    record {
                      kept =
                          append_assoc bundle (concat r.sent) (messages r.waiting)
                          ∙ ap (λ l. bundle ++ l) w.kept
                          ∙ b.kept;
                      short = (b.short, w.short);
                      done = w.done;
                      taken = λ o. (f, w.taken o);
                    },
                  )
              | inr f ↦ (
                record { sent = bundle ∷ []; waiting = nio'; ok = false },
                rw (e, f, flush_loop) refl,
                record {
                  kept = rw (append-nil bundle) b.kept;
                  short = (b.short, tt);
                  done = λ o. absurd (ground arith);
                  taken = λ o. absurd (ground arith);
                },
              )
            ]
          ]

      length-map : {A : Type 0} (f : A → Ny) (xs : List A) → length (map f xs) ≡ length xs
      length-map f [] = refl
      length-map f (x ∷ xs) = ap suc (length-map f xs)

      length-messages :
          (nio : IoPending) → length (messages nio) ≡ message_count size safe_mtu send nio
      length-messages nio =
          let updates = map route_update nio.updates in
          let acks = map ack_retract nio.acks in
          omega (
            arith,
            length-append (map seqno_request nio.seqno_req) (updates ++ acks),
            length-append updates acks,
            length-map seqno_request nio.seqno_req,
            length-map route_update nio.updates,
            length-map ack_retract nio.acks,
          )

      -- If no message has size 0, a flush to one neighbour ends: each waiting message is in exactly one
      -- bundle, in the order in which the maps are visited, or still waits; every bundle is shorter
      -- than the safe MTU or a single message; and if no send failed, nothing waits any more.
      pub flush_loop_sends :
          (nio : IoPending)
          → (r : Flushed size safe_mtu send) × (flush_loop size safe_mtu send
                (suc (message_count size safe_mtu send nio))
                nio
              ≡ some r)
            × (concat r.sent ++ messages r.waiting ≡ messages nio)
            × All (IsShort size safe_mtu) r.sent
            × (r.ok ≡ true → (messages r.waiting ≡ []) × All (λ b. send b ≡ true) r.sent)
      flush_loop_sends nio =
          let (r, e, w) =
            flush_loop_lem (suc (message_count size safe_mtu send nio)) nio
              (omega (arith, length-messages nio)) in
          (r, e, w.kept, w.short, λ o. (w.done o, w.taken o))
