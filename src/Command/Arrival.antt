-- ===== src/Command/Arrival.antt =====
-- cmd/mp1/root.go and the handlers of a node: what becomes of a request that carries an event.
use mathlib.Core.Path.{subst}
use cs425_mps.Base.{
  sym, ℕ, suc, ◌≡◌, refl, ap, ◌∙◌, inl, inr, Option, none, [], ◌∷◌, ◌++◌, arith, Bool-cases,
}
use cs425_mps.Base.Text.{Str, str_eq}
use cs425_mps.Base.Dict.{lookup, insert}
use cs425_mps.Base.Run.{Run, Returns, returns, Returns-bind}
use cs425_mps.Base.Result.{Error, Result}
use cs425_mps.Codec.{Codec, Bytes, IsLossless}
use cs425_mps.Message.{
  BMsg, RMsg, ToMsg, ToAskProposalSeqMsg, ToReplyProposalSeqMsg, new_b_msg, encode_b_msg,
  decode_r_msg, decode_ask,
}
use cs425_mps.Router.{Msg, new, bind, run}
use cs425_mps.Event.{Event, Deposit, Transfer}
use cs425_mps.BMulticast.{BMulticast, b_multicast_path, pack, unicast, multicast}
use cs425_mps.BMulticast.Send.{IsMembers, survivors-IsMembers, multicast_correct}
use cs425_mps.RMulticast.{
  RMulticast, r_multicast_path, add_msg_if_not_exist, hand_on, relay, r_deliver,
}
use cs425_mps.TotalOrder.Valid.{IsValid, AskStep, ask_proposal_seq_correct}
use cs425_mps.Node.{
  wait_proposal_seq_path, Codecs, Above, Process, ask_proposal_seq_path, r_router, b_router, r_run,
  ask_handler, b_handle, b_run, handle_frame,
}
use cs425_mps.Node.Upper.{unicast-IsMembers}
use cs425_mps.Node.Frame.{b_run-own}
use cs425_mps.Command.Request.{Carries}

-- The request is in the hold queue, and the application was not called.
pub record IsAsked {A : Type 0} (self : Str) (ask : ToAskProposalSeqMsg) (u u' : Above A)
    : Type 0 where
  pub reply : ToReplyProposalSeqMsg
  pub step : AskStep u.total self ask (u'.total, reply)
  pub valid : IsValid u'.total
  pub votes : u'.votes ≡ u.votes
  pub app : u'.app ≡ u.app

-- The node has handled the request, and marked it.
pub record IsArrived {A : Type 0} (id : Str) (ask : ToAskProposalSeqMsg) (p p' : Process A)
    : Type 0 where
  pub asked : IsAsked p.rmulticast.bmulticast.self_node_id ask p.above p'.above
  pub received : p'.rmulticast.received ≡ insert id tt p.rmulticast.received
  pub delivered : p'.rmulticast.delivered ≡ p.rmulticast.delivered ++ id ∷ []

module _ {A : Type 0} (cs : Codecs) (app_run : Str → ToMsg → A → Run (A × Option Error))
    (now : ℕ) where
  ask_handler-IsAsked :
      (m : RMsg) (ask : ToAskProposalSeqMsg) (b : BMulticast) (u : Above A)
      → IsMembers b.senders
      → decode_ask cs.ask m.body ≡ (ask, none)
      → IsValid u.total
      → Returns (λ x. IsAsked b.self_node_id ask u x.0.1) (ask_handler cs app_run now m b u)
  unfolding ask_handler
  ask_handler-IsAsked m ask b u members e v =
      rw (ap (λ x. x.1) e, ask_handler)
        (rw (ap (λ x. x.0) e) (
          Returns-bind (ask_proposal_seq_correct u.total b.self_node_id ask v) λ r (valid, st).
            Returns-bind
              (unicast-IsMembers cs.b_msg cs.reply b ask.src_id wait_proposal_seq_path r.1 members)
              λ x kept.
                returns
                  (record { reply = r.1; step = st; valid = valid; votes = refl; app = refl })))

  asks_path :
      (m : RMsg) (b : BMulticast) (u : Above A)
      → r_run cs app_run now ask_proposal_seq_path m b u ≡ ask_handler cs app_run now m b u
  unfolding r_run r_router run new bind insert lookup str_eq
  asks_path m b u = refl

  hand_on-IsAsked :
      (r : RMulticast) (u : Above A) (m : RMsg) (ask : ToAskProposalSeqMsg)
      → m.path ≡ ask_proposal_seq_path
      → decode_ask cs.ask m.body ≡ (ask, none)
      → IsMembers r.bmulticast.senders
      → IsValid u.total
      → Returns
          (λ x.
            IsAsked r.bmulticast.self_node_id ask u x.1
            × (x.0.received ≡ r.received)
            × (x.0.delivered ≡ r.delivered ++ m.id ∷ []))
          (hand_on cs.b_msg cs.r_msg (r_run cs app_run now) r u m)
  unfolding hand_on
  hand_on-IsAsked r u m ask at e members v =
      rw
        (
          ap (λ path. r_run cs app_run now path m r.bmulticast u) at ∙ asks_path m r.bmulticast u,
          hand_on,
        )
        (Returns-bind (ask_handler-IsAsked m ask r.bmulticast u members e v)
          λ x asked. returns (asked, refl, refl))

  -- The node has marked the message.
  abbrev marked : RMulticast → BMulticast → Str → RMulticast
  marked r b id = record {
    bmulticast = b;
    received = insert id tt r.received;
    delivered = r.delivered;
  }

  abbrev Arrives :
      Str
      → ToAskProposalSeqMsg
      → RMulticast
      → Above A
      → RMulticast × Above A × Option Error
      → Type 0
  Arrives id ask r u x =
      IsAsked r.bmulticast.self_node_id ask u x.1
      × (x.0.received ≡ insert id tt r.received)
      × (x.0.delivered ≡ r.delivered ++ id ∷ [])

  module _ (r : RMulticast) (u : Above A) (m : RMsg) (ask : ToAskProposalSeqMsg)
      (at : m.path ≡ ask_proposal_seq_path) (asks : decode_ask cs.ask m.body ≡ (ask, none))
      (map : IsMembers r.bmulticast.senders) (v : IsValid u.total) where
    own-Arrives :
        Returns
          (Arrives m.id ask r u)
          (hand_on cs.b_msg cs.r_msg (r_run cs app_run now) (marked r r.bmulticast m.id) u m)
    own-Arrives = hand_on-IsAsked (marked r r.bmulticast m.id) u m ask at asks map v

    relayed-Arrives :
        IsLossless cs.r_msg
        → IsLossless cs.b_msg
        → Returns
            (Arrives m.id ask r u)
            (relay cs.b_msg cs.r_msg (r_run cs app_run now) (marked r r.bmulticast m.id) u m)
    unfolding relay pack new_b_msg encode_b_msg
    relayed-Arrives lr lb =
        let (r_bytes, h) = lr.marshals m in
        let (bytes, k) = lb.marshals (record {
          src_id = r.bmulticast.self_node_id;
          path = r_multicast_path;
          body = r_bytes;
        }) in
        let packed : pack cs.b_msg cs.r_msg r.bmulticast r_multicast_path m ≡ Result.ok bytes =
          ground (arith, h, k) in
        Returns-bind
          (multicast_correct cs.b_msg cs.r_msg r.bmulticast r_multicast_path m bytes map packed)
          λ x (reaches, fine).
            let members : IsMembers x.0.senders =
              subst IsMembers (sym reaches.senders)
                (survivors-IsMembers r.bmulticast.senders map) in
            rw fine (
              subst
                (λ self.
                  Returns
                    (λ y.
                      IsAsked self ask u y.1
                      × (y.0.received ≡ insert m.id tt r.received)
                      × (y.0.delivered ≡ r.delivered ++ m.id ∷ []))
                    (hand_on cs.b_msg cs.r_msg (r_run cs app_run now) (marked r x.0 m.id) u m))
                reaches.self (hand_on-IsAsked (marked r x.0 m.id) u m ask at asks members v))

  r_deliver-Arrives :
      (r : RMulticast) (u : Above A) (b : BMsg) (m : RMsg) (ask : ToAskProposalSeqMsg)
      → decode_r_msg cs.r_msg b.body ≡ (m, none)
      → m.path ≡ ask_proposal_seq_path
      → decode_ask cs.ask m.body ≡ (ask, none)
      → lookup m.id r.received ≡ none
      → IsLossless cs.r_msg
      → IsLossless cs.b_msg
      → IsMembers r.bmulticast.senders
      → IsValid u.total
      → Returns (Arrives m.id ask r u) (r_deliver cs.b_msg cs.r_msg (r_run cs app_run now) r u b)
  unfolding r_deliver add_msg_if_not_exist
  r_deliver-Arrives r u b m ask e at asks fresh lr lb map v =
      rw (ap (λ x. x.1) e, r_deliver, add_msg_if_not_exist)
        (rw (ap (λ x. x.0) e) (
          rw (fresh, add_msg_if_not_exist)
            (elim (Bool-cases (str_eq b.src_id r.bmulticast.self_node_id)) [
              | inl own ↦ rw own (own-Arrives r u m ask at asks map v)
              | inr other ↦ rw other (relayed-Arrives r u m ask at asks map v lr lb)
            ])))

  b_run-at :
      (fuel : ℕ) (path : Str) (b : BMsg) (p : Process A)
      → path ≡ r_multicast_path
      → b_run cs app_run now (suc fuel) path b p
        ≡ b_handle cs app_run now (b_run cs app_run now fuel) cs425_mps.BMulticast.r_deliver b p
  unfolding b_run run b_router new bind insert lookup str_eq
  b_run-at fuel path b p e = rw e refl

  b_run-r_multicast :
      (fuel : ℕ) (b : BMsg) (p : Process A)
      → b.path ≡ r_multicast_path
      → b_run cs app_run now (suc (suc fuel)) b_multicast_path b p
        ≡ b_handle cs app_run now (b_run cs app_run now fuel) cs425_mps.BMulticast.r_deliver b p
  b_run-r_multicast fuel b p e =
      b_run-own cs app_run now (suc fuel) b p ∙ b_run-at fuel b.path b p e

  -- A frame that carries an event of another node or of this one is handled to the end by any node
  -- that has not received it, whose members are a map without a nil client and whose total order
  -- is valid, with codecs that read back what they write: the message is marked and handed on
  -- once; the request is in the hold queue with the number after both maxima, not agreed; the
  -- total order stays valid, and the votes and the application are as they were.
  pub request_arrives :
      (cd : Codec Deposit) (ct : Codec Transfer) (fuel : ℕ) (src : Str) (bytes : Bytes)
      (msg : Msg Event) (p : Process A)
      → IsLossless cs.r_msg
      → IsLossless cs.b_msg
      → (c : Carries cs cd ct src bytes msg) → lookup c.r.id p.rmulticast.received ≡ none
      → IsMembers p.rmulticast.bmulticast.senders
      → IsValid p.above.total
      → Returns
          (λ x. IsArrived c.r.id c.a p x.0)
          (handle_frame cs app_run now (suc (suc fuel)) bytes p)
  unfolding handle_frame
  request_arrives cd ct fuel src bytes msg p lr lb c fresh map v = rw (ap (λ x. x.0) c.b_read) (
      rw (b_run-r_multicast fuel c.b p c.b_path) (
        Returns-bind
          (r_deliver-Arrives p.rmulticast p.above c.b c.r c.a c.r_read c.r_path c.a_read fresh lr lb
            map v)
          λ x (asked, received, delivered).
            returns (record { asked = asked; received = received; delivered = delivered })))
