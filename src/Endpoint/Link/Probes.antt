-- ===== src/Endpoint/Link/Probes.antt =====
-- The window of unanswered probes of state/endpoint.go.
use mathlib.Core.List.{append_assoc, append-nil}
use nylon.Base.{
  ℕ, zero, suc, ◌+◌, ◌-◌, ◌≤◌, ◌≡◌, refl, sym, subst, ◌∙◌, ◌⊎◌, inl, inr, Bool, true, false, List,
  [], ◌∷◌, ◌++◌, none, some, arith, ltb, if◌then◌else◌, length, drop, min, Bool-cases, Option-cases,
  length-append, length-drop,
}
use nylon.Base.Int.{ℤ, pos, ◌-ℤ◌, ltb_ℤ, eqb_ℤ, eq_of_parts}
use nylon.Endpoint.Link.{
  NylonEndpoint, remove_first, register_probe, observe_echo, sweep_from, sweep_probes, timed_out,
  record_loss, pending_probe_cap, probe_timeout,
}
use nylon.Platform.{Platform}

-- how often a probe stands in the window
unfoldable pub count : ℤ → List ℤ → ℕ
count x [] = 0
count x (y ∷ ys) = (if eqb_ℤ y x then 1 else 0) + count x ys

count_append : (x : ℤ) (xs ys : List ℤ) → count x (xs ++ ys) ≡ count x xs + count x ys
unfolding count
count_append x [] ys = omega arith
count_append x (y ∷ xs) ys = omega (arith, count_append x xs ys)

remove_first-none : (x : ℤ) (xs : List ℤ) → remove_first x xs ≡ none → count x xs ≡ 0
unfolding remove_first count
remove_first-none x [] h = refl
remove_first-none x (y ∷ ys) h = elim (Option-cases (remove_first x ys)) [
  | inl e ↦ ground (arith, remove_first-none x ys e)
  | inr (zs, e) ↦ absurd (ground arith)
]

remove_first-count :
    (x q : ℤ) (xs zs : List ℤ)
    → remove_first x xs ≡ some zs
    → count q xs ≡ (if eqb_ℤ x q then 1 else 0) + count q zs
unfolding remove_first count
remove_first-count x q [] zs h = absurd (ground arith)
remove_first-count x q (y ∷ ys) zs h = elim (Bool-cases (eqb_ℤ y x)) [
  | inl same ↦
      let e : ys ≡ zs = ground arith in
      let e' : y ≡ x = eq_of_parts y x (ground arith) in rw (← e, e') refl
  | inr differs ↦ elim (Option-cases (remove_first x ys)) [
    | inl e ↦ absurd (ground arith)
    | inr (ws, e) ↦
        let e' : (y ∷ ws) ≡ zs = ground arith in
        rw (← e') omega (arith, remove_first-count x q ys ws e)
  ]
]

drop-append : (n : ℕ) (xs ys : List ℤ) → n ≤ length xs → drop n (xs ++ ys) ≡ drop n xs ++ ys
drop-append zero xs ys h = refl
drop-append (suc n) [] ys h = absurd (omega arith)
drop-append (suc n) (x ∷ xs) ys h = drop-append n xs ys (omega arith)

count_newest : (n : ℕ) (x : ℤ) (xs : List ℤ) → n ≤ length xs → 1 ≤ count x (drop n (xs ++ x ∷ []))
unfolding count
count_newest n x xs h =
    rw (drop-append n xs (x ∷ []) h, count_append x (drop n xs) (x ∷ [])) (ground arith)

module _ ⦃P : Platform⦄ where
  -- An echo of a probe that is not waiting changes nothing and is refused. An echo of a waiting probe
  -- is accepted, and takes one occurrence of that probe and of no other out of the window.
  pub observe_echo_once :
      (u : NylonEndpoint) (origin_tx peer_rx other : ℤ)
      → let (u', accepted) = observe_echo u origin_tx peer_rx in
        ((count origin_tx u.pending ≡ 0) × (accepted ≡ false) × (u' ≡ u))
        ⊎ ((1 ≤ count origin_tx u.pending)
            × (accepted ≡ true)
            × (count other u.pending
                ≡ (if eqb_ℤ origin_tx other then 1 else 0) + count other u'.pending))
  unfolding observe_echo
  observe_echo_once u origin_tx peer_rx other =
      elim (Option-cases (remove_first origin_tx u.pending)) [
        | inl e ↦ inl (rw (e, observe_echo) (remove_first-none origin_tx u.pending e, refl, refl))
        | inr (rest, e) ↦
            let here = remove_first-count origin_tx origin_tx u.pending rest e in
            inr (
              rw (e, observe_echo)
                (ground arith, refl, remove_first-count origin_tx other u.pending rest e))
      ]

  register_probe-count :
      (u : NylonEndpoint) (tx_ts : ℤ) → 1 ≤ count tx_ts (register_probe u tx_ts).pending
  unfolding register_probe
  register_probe-count u tx_ts =
      let all = u.pending ++ tx_ts ∷ [] in
      elim (Bool-cases (ltb pending_probe_cap (length all))) [
        | inl over ↦ rw over (
            count_newest (length all - pending_probe_cap) tx_ts u.pending
              (omega (arith, length-append u.pending (tx_ts ∷ []))))
        | inr fits ↦ rw fits (count_newest 0 tx_ts u.pending (omega arith))
      ]

  -- The echo of the newest probe is always accepted, even where the window was full; and the window
  -- never holds more than 128 probes.
  pub register-observe :
      (u : NylonEndpoint) (tx_ts peer_rx : ℤ)
      → ((observe_echo (register_probe u tx_ts) tx_ts peer_rx).1 ≡ true)
        × (length (register_probe u tx_ts).pending ≤ pending_probe_cap)
  register-observe u tx_ts peer_rx =
      let u' = register_probe u tx_ts in
      (
        elim (observe_echo_once u' tx_ts peer_rx tx_ts) [
          | inl (gone, _, _) ↦ absurd (omega (arith, register_probe-count u tx_ts))
          | inr (_, accepted, _) ↦ accepted
        ],
        unfold register_probe in
            let all = u.pending ++ tx_ts ∷ [] in
            ground (arith, length-drop (length all - pending_probe_cap) all),
      )

  -- the waiting probes that are not older than the timeout
  unfoldable pub in_time : ℤ → List ℤ → List ℤ
  in_time now_ns [] = []
  in_time now_ns (tx_ts ∷ rest) =
      let kept = in_time now_ns rest in
      if ltb_ℤ (pos probe_timeout) (now_ns -ℤ tx_ts) then kept else tx_ts ∷ kept

  -- the moving average of losses after `n` more lost probes: `alpha * 1 + (1 - alpha) * average`,
  -- from 1 where there was no sample
  unfoldable pub average_after : P.Float → ℕ → Bool → P.Float → P.Float
  average_after alpha zero init average = average
  average_after alpha (suc n) init average =
      let one = P.literal 1 0 in
      average_after alpha n true
        (if init then P.add (P.mul alpha one) (P.mul (P.sub one alpha) average) else one)

  sweep_from-facts :
      (now_ns : ℤ) (rest kept : List ℤ) (u : NylonEndpoint)
      → u.loss_samples ≤ u.t.minimum_confidence_window
      → let u' = sweep_from u now_ns rest kept in
        let lost = length rest - length (in_time now_ns rest) in
        (u'.pending ≡ kept ++ in_time now_ns rest)
        × (u'.loss_samples ≡ min (u.loss_samples + lost) u.t.minimum_confidence_window)
        × (u'.loss_ewma ≡ average_after u.t.loss_smoothing_alpha lost u.loss_init u.loss_ewma)
        × (length (in_time now_ns rest) ≤ length rest)
  unfolding sweep_from in_time average_after record_loss timed_out
  sweep_from-facts now_ns [] kept u h = (sym (append-nil kept), omega arith, refl, omega arith)
  sweep_from-facts now_ns (tx_ts ∷ rest) kept u h = elim (Bool-cases (timed_out now_ns tx_ts)) [
    | inl late ↦
        let (p, l, w, f) = sweep_from-facts now_ns rest kept (record_loss u false) (ground arith) in
        let more : (record_loss u false).loss_samples
            ≡ min (u.loss_samples + 1) u.t.minimum_confidence_window =
          ground arith in
        let one_more : suc (length rest) - length (in_time now_ns rest)
            ≡ suc (length rest - length (in_time now_ns rest)) =
          omega (arith, f) in
        rw (late, sweep_from)
          (p, omega (arith, l, f, more), rw (one_more, average_after) w, omega (arith, f))
    | inr ok ↦
        let (p, l, w, f) = sweep_from-facts now_ns rest (kept ++ tx_ts ∷ []) u h in
        let same : suc (length rest) - suc (length (in_time now_ns rest))
            ≡ length rest - length (in_time now_ns rest) =
          omega arith in
        rw (ok, sweep_from)
          (
            p ∙ append_assoc kept (tx_ts ∷ []) (in_time now_ns rest),
            omega (arith, l),
            subst
                (λ n.
                  (sweep_from u now_ns rest (kept ++ tx_ts ∷ [])).loss_ewma
                  ≡ average_after u.t.loss_smoothing_alpha n u.loss_init u.loss_ewma)
                (sym same) w,
            omega (arith, f),
          )
  ]

  -- A sweep keeps the waiting probes that are not older than the timeout, in their order; for each of
  -- the others it counts one sample, up to the confidence window (if the count is within it before),
  -- and the moving average of losses takes one loss, `alpha * 1 + (1 - alpha) * average`.
  pub sweep_probes_lem :
      (u : NylonEndpoint) (now_ns : ℤ)
      → u.loss_samples ≤ u.t.minimum_confidence_window
      → let u' = sweep_probes u now_ns in
        let lost = length u.pending - length u'.pending in
        (u'.pending ≡ in_time now_ns u.pending)
        × (u'.loss_samples ≡ min (u.loss_samples + lost) u.t.minimum_confidence_window)
        × (u'.loss_ewma ≡ average_after u.t.loss_smoothing_alpha lost u.loss_init u.loss_ewma)
  unfolding sweep_probes
  sweep_probes_lem u now_ns h =
      let (p, l, w, f) = sweep_from-facts now_ns u.pending [] u h in (p, rw p l, rw p w)
