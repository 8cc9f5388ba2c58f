-- ===== src/Node/Frame.antt =====
-- What a node does with one frame from a connection.
use cs425_mps.Base.{
  ◌≡◌, refl, ap, ◌∙◌, ◌≢◌, inl, inr, Option, some, [], ◌∷◌, ℕ, zero, suc, arith, Option-cases,
}
use cs425_mps.Base.Text.{Str, str_eq, str_eq_iff}
use cs425_mps.Base.Dict.{lookup, insert}
use cs425_mps.Base.Run.{Run, out_of_fuel, Returns, returns, Returns-bind}
use cs425_mps.Base.Result.{Error}
use cs425_mps.Codec.{Bytes}
use cs425_mps.Message.{BMsg, ToMsg, decode_b_msg, decode_reply}
use cs425_mps.Router.{new, bind, run}
use cs425_mps.BMulticast.{BHandler, b_deliver, r_deliver, wait_proposal_seq, b_multicast_path}
use cs425_mps.BMulticast.Send.{IsMembers}
use cs425_mps.RMulticast.Deliver.{r_deliver_correct}
use cs425_mps.RMulticast.Once.{IsOnce, RDelivers-IsOnce}
use cs425_mps.TotalOrder.Valid.{IsValid}
use cs425_mps.RMulticast.{r_multicast_path}
use cs425_mps.Node.{
  wait_proposal_seq_path, Codecs, Above, Process, b_router, r_run, wait_handler, b_handle, b_run,
  handle_frame,
}
use cs425_mps.Node.Upper.{AboveIsValid, r_run-RunReturns}

-- The members are a map without nil, nothing was handed on twice, and the total order is in a valid state.
pub record ProcessIsValid {A : Type 0} (p : Process A) : Type 0 where
  pub members : IsMembers p.rmulticast.bmulticast.senders
  pub once : IsOnce p.rmulticast
  pub total : IsValid p.above.total

-- The path of the basic multicast is bound to its own handler.
own_path : lookup b_multicast_path b_router.routers ≡ some b_deliver
unfolding b_router new bind insert lookup str_eq
own_path = refl

pub bound_handlers :
    b_router.routers
    ≡ (b_multicast_path, b_deliver)
      ∷ (r_multicast_path, r_deliver)
      ∷ (wait_proposal_seq_path, wait_proposal_seq)
      ∷ []
unfolding b_router new bind insert str_eq
bound_handlers = refl

-- No other path is.
other_paths : (path : Str) → lookup path b_router.routers ≡ some b_deliver → path ≡ b_multicast_path
unfolding lookup
other_paths path e =
    let f = rw bound_handlers at e in ground (arith, f, str_eq_iff b_multicast_path path)

module _ {A : Type 0} (cs : Codecs) (app_run : Str → ToMsg → A → Run (A × Option Error))
    (now : ℕ) where
  pub b_run-own :
      (fuel : ℕ) (msg : BMsg) (p : Process A)
      → b_run cs app_run now (suc fuel) b_multicast_path msg p
        ≡ b_run cs app_run now fuel msg.path msg p
  unfolding b_run run
  b_run-own fuel msg p = rw (own_path, b_run, run) refl

  -- A frame whose message has the path of the basic multicast is never done with: with any fuel
  -- its handling runs out of fuel, since the handler of that path runs the router with the same
  -- message.
  pub frame_loops :
      (line : Bytes) (p : Process A) (fuel : ℕ)
      → (decode_b_msg cs.b_msg line).0.path ≡ b_multicast_path
      → handle_frame cs app_run now fuel line p ≡ out_of_fuel
  unfolding handle_frame b_run
  frame_loops line p fuel e = loops fuel
    where
      loops :
          (fuel : ℕ)
          → b_run cs app_run now fuel b_multicast_path (decode_b_msg cs.b_msg line).0 p
            ≡ out_of_fuel
      loops zero = refl
      loops (suc fuel) = b_run-own fuel (decode_b_msg cs.b_msg line).0 p ∙ rw e (loops fuel)

  wait_handler-total :
      (msg : BMsg) (u : Above A) → (wait_handler cs app_run now msg u).0.total ≡ u.total
  unfolding wait_handler
  wait_handler-total msg u = elim (Option-cases (decode_reply cs.reply msg.body).1) [
    | inr (e, bad) ↦ rw (bad, wait_handler) refl
    | inl good ↦ rw (good, wait_handler) refl
  ]

  module _
      (app_returns : (path : Str) (m : ToMsg) (a : A)
        → Returns (λ r. Unit {0}) (app_run path m a)) where
    abbrev Stays : Process A × Option Error → Type 0
    Stays r = ProcessIsValid r.0

    b_handle-Stays :
        (deliver : Str → BMsg → Process A → Run (Process A × Option Error)) (h : BHandler)
        (msg : BMsg) (p : Process A)
        → ProcessIsValid p
        → h ≢ b_deliver
        → Returns Stays (b_handle cs app_run now deliver h msg p)
    b_handle-Stays deliver b_deliver msg p v ne = absurd (ne refl)
    b_handle-Stays deliver r_deliver msg p v ne =
        Returns-bind
          (r_deliver_correct cs.b_msg cs.r_msg (r_run cs app_run now) AboveIsValid
            (r_run-RunReturns cs app_run now app_returns) p.rmulticast p.above msg
            (v.members, v.total))
          λ u (d, (map, total)). returns (record {
            members = map;
            once =
                RDelivers-IsOnce cs.b_msg cs.r_msg (r_run cs app_run now) p.rmulticast p.above msg u
                  v.once d;
            total = total;
          })
    b_handle-Stays deliver wait_proposal_seq msg p v ne = returns (record {
      members = v.members;
      once = v.once;
      total = rw (wait_handler-total msg p.above) v.total;
    })

    -- In a node whose members are a map without a nil client, whose reliable multicast handed on
    -- no message twice and whose total order is valid, with an application that returns, any line
    -- of a connection is handled to the end without a panic and leaves the node so, whether or not
    -- it decodes, unless its message has the path of the basic multicast.
    pub frame-Returns :
        (line : Bytes) (p : Process A)
        → ProcessIsValid p
        → (decode_b_msg cs.b_msg line).0.path ≢ b_multicast_path
        → Returns (λ r. ProcessIsValid r.0) (handle_frame cs app_run now 2 line p)
    unfolding handle_frame b_run run
    frame-Returns line p v ne =
        let msg = (decode_b_msg cs.b_msg line).0 in rw (b_run-own 1 msg p) (inner msg ne)
      where
        inner :
            (msg : BMsg)
            → msg.path ≢ b_multicast_path
            → Returns Stays (b_run cs app_run now 1 msg.path msg p)
        inner msg ne = elim (Option-cases (lookup msg.path b_router.routers)) [
          | inl missing ↦ rw (missing, b_run, run) (returns v)
          | inr (h, found) ↦
              rw (found, b_run, run)
                (b_handle-Stays (b_run cs app_run now 0) h msg p v
                  λ same. ne (other_paths msg.path (found ∙ ap some same)))
        ]
