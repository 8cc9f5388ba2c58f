-- ===== src/TotalOrder/Deliver.antt =====
-- The loop that hands messages to the application: what its rounds do, that it ends, and that it
-- keeps the invariant.
use cs425_mps.Base.{
  ap, ℕ, zero, suc, ◌+◌, ◌<◌, ◌≡◌, refl, inl, inr, Bool, Option, none, some, ◌==◌, arith,
  Option-cases,
}
use cs425_mps.Base.Text.{Str}
use cs425_mps.Base.Dict.{lookup}
use cs425_mps.Base.Run.{
  Run, ok, Returns-inv, Returns, returns, Returns-bind, Returns-map, Returns-if,
}
use cs425_mps.Base.Result.{Error, unknown_msg}
use cs425_mps.Codec.{Bytes}
use cs425_mps.HoldQueue.{ToHoldPriorityQueue, len}
use cs425_mps.HoldQueue.Slots.{item_at}
use cs425_mps.HoldQueue.Valid.{IsHoldQueue}
use cs425_mps.HoldQueue.Update.{Agrees, update_correct}
use cs425_mps.Message.{ToMsg, ToAnnounceAgreementSeqMsg}
use cs425_mps.TotalOrder.{
  TotalOrding, see_agreement, deliver_loop, agree_and_deliver, announce_agreement_seq,
}
use cs425_mps.TotalOrder.Valid.{IsValid}
use cs425_mps.TotalOrder.Heads.{
  root_pointer, head_item-root_pointer, take_head-Takes, skip_crashed_delivers, Delivers,
  Takes-IsValid, Delivers-IsValid, empty, garble, deliver,
}

-- The state in which the loop starts.
abbrev pub announced : TotalOrding → ToHoldPriorityQueue → TotalOrding
announced t q = record t { hold_queue = q }

module _ {A : Type 0} (decode : Bytes → ToMsg × Option Error)
    (run : Str → ToMsg → A → Run (A × Option Error)) (is_node_alived : Str → Bool) (now : ℕ) where
  -- How the second part of the handler of an announcement ends.
  pub data Announces (t : TotalOrding) (a : A) (msg : ToAnnounceAgreementSeqMsg)
      : TotalOrding × A × Option Error → Type 0 where
    -- The message is not held: nothing changes.
    unknown : lookup msg.msg_id t.hold_queue_map ≡ none → Announces t a msg (t, a, some unknown_msg)
    -- Its item is agreed, and then the loop runs.
    known :
        (s : ℕ) (q : ToHoldPriorityQueue) {r : TotalOrding × A × Option Error}
        → lookup msg.msg_id t.hold_queue_map ≡ some s
        → IsHoldQueue q
        → Agrees t.hold_queue s msg.process_id msg.agreement_seq q
        → Delivers decode run is_node_alived now (announced t q) a r
        → Announces t a msg r

Agrees-IsValid :
    (t : TotalOrding) (msg : ToAnnounceAgreementSeqMsg) (s : ℕ) (q : ToHoldPriorityQueue)
    → IsValid t
    → IsHoldQueue q
    → Agrees t.hold_queue s msg.process_id msg.agreement_seq q
    → IsValid (announced t q)
Agrees-IsValid t msg s q v w k = record {
  queue = w;
  held = λ j r e. k.keeps r (v.held j r e);
  named = λ j r e. ground (arith, k.items r, v.named j r e);
}

module _ {A : Type 0} (decode : Bytes → ToMsg × Option Error)
    (run : Str → ToMsg → A → Run (A × Option Error)) (is_node_alived : Str → Bool) (now : ℕ)
    (run_returns : (path : Str) (m : ToMsg) (a : A) → Returns (λ r. Unit {0}) (run path m a)) where
  -- The application returns, with what it is run to.
  run_runs : (m : ToMsg) (a : A) → Returns (λ r. run m.path m a ≡ ok r) (run m.path m a)
  run_runs m a = let (r, e, _) = Returns-inv (run_returns m.path m a) in rw e (returns refl)

  decoded : (body : Bytes) → (decode body).1 ≡ none → decode body ≡ ((decode body).0, none)
  decoded body e = ap (λ o. ((decode body).0, o)) e

  -- With fuel above the length of the queue the loop ends by itself.
  deliver_loop_delivers :
      (fuel : ℕ) (t : TotalOrding) (a : A)
      → len t.hold_queue < fuel
      → IsValid t
      → Returns
          (Delivers decode run is_node_alived now t a)
          (deliver_loop decode run is_node_alived now fuel t a)
  unfolding deliver_loop
  deliver_loop_delivers zero t a f v = absurd (omega arith)
  deliver_loop_delivers (suc fuel) t a f v =
      Returns-if (len t.hold_queue == 0) (λ nothing. returns (empty t a (ground arith)))
        (λ some_left.
          let h : 0 < len t.hold_queue = ground arith in
          let x = item_at t.hold_queue (root_pointer t v.queue h) in
          rw (head_item-root_pointer t v.queue h) (
            Returns-if x.agreed
              (λ agreed. Returns-bind (take_head-Takes t v.queue h) λ u k.
                elim (Option-cases (decode x.body).1) [
                  | inl good ↦ rw good (
                      Returns-bind (run_runs (decode x.body).0 a) λ r ran.
                        Returns-map
                          (deliver_loop_delivers fuel u r.0 (omega (arith, k.shorter))
                            (Takes-IsValid (root_pointer t v.queue h) v k))
                          λ w d.
                            deliver a r.0 (root_pointer t v.queue h) (decode x.body).0 r.1 agreed k
                              (decoded x.body good) ran d)
                  | inr (e, bad) ↦
                      rw bad (returns (garble a (root_pointer t v.queue h) e agreed k bad))
                ])
              (λ not_agreed.
                Returns-bind
                  (skip_crashed_delivers t v.queue h decode run is_node_alived now a not_agreed)
                  λ u d. returns d)))

  pub agree_and_deliver_correct :
      (t : TotalOrding) (a : A) (msg : ToAnnounceAgreementSeqMsg)
      → IsValid t
      → Returns
          (λ r. IsValid r.0 × Announces decode run is_node_alived now t a msg r)
          (agree_and_deliver decode run is_node_alived now t a msg)
  agree_and_deliver_correct t a msg v = elim (Option-cases (lookup msg.msg_id t.hold_queue_map)) [
    | inl missing ↦ rw (missing, agree_and_deliver) (returns (v, unknown missing))
    | inr (s, found) ↦
        let (i, at) = v.held msg.msg_id s found in
        rw (found, agree_and_deliver)
          (Returns-bind
            (update_correct t.hold_queue v.queue i s at msg.process_id msg.agreement_seq)
            λ q (w, k, size).
              let start = Agrees-IsValid t msg s q v w k in
              Returns-map (deliver_loop_delivers (len q + 1) (announced t q) a (omega arith) start)
                λ r d. (Delivers-IsValid d start, known s q found w k d))
  ]

  -- On a valid state, with an application whose handlers return, the handler of an announcement,
  -- where nothing runs between its two parts, ends without a panic and with fuel left, and keeps
  -- the state valid. Either the message is not held, and only the maximum changes; or its item
  -- gets the agreed key, and then agreed heads are delivered, each with a run of the application
  -- on its decoded message, until the queue is empty, a body does not decode, or the head is not
  -- agreed. In that last case nothing changes if its process is alive or its timer has run for at
  -- most the timeout, the timer starts if there is none, and the head is dropped if the timer has
  -- run for longer.
  pub announce_agreement_seq_correct :
      (t : TotalOrding) (a : A) (msg : ToAnnounceAgreementSeqMsg)
      → IsValid t
      → Returns
          (λ r. IsValid r.0 × Announces decode run is_node_alived now (see_agreement t msg) a msg r)
          (announce_agreement_seq decode run is_node_alived now t a msg)
  unfolding announce_agreement_seq
  announce_agreement_seq_correct t a msg v =
      agree_and_deliver_correct (see_agreement t msg) a msg
        (record { queue = v.queue; held = v.held; named = v.named })
