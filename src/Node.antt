-- ===== src/Node.antt =====
-- The layers of a node together: bindTODeliver of lib/mp1/multicast/total_ording.go, bindBDeliver of
-- b_multicast.go, and what handleConn of server.go does with one frame.
pub mod Upper
pub mod Frame
pub mod Start
pub mod Tests
use cs425_mps.Base.{ℕ, zero, suc, Option, none, some, List, [], ◌∷◌, ◌++◌, Bool}
use cs425_mps.Base.Text.{Str, codes}
use cs425_mps.Base.Run.{Run, ok, out_of_fuel, ◌>>=◌}
use cs425_mps.Base.Result.{Error, Result}
use cs425_mps.Codec.{Codec, Bytes}
use cs425_mps.Message.{
  BMsg, RMsg, ToAskProposalSeqMsg, ToReplyProposalSeqMsg, ToAnnounceAgreementSeqMsg, ToMsg,
  decode_b_msg, decode_ask, decode_reply, decode_announce, decode_to_msg, new_to_msg, encode_to_msg,
  new_to_ask_proposal_seq_msg,
}
use cs425_mps.Router.{Router, new, bind, run}
use cs425_mps.Util.{ProposalItem}
use cs425_mps.BMulticast.{
  BMulticast, BHandler, b_deliver, r_deliver, wait_proposal_seq, b_multicast_path, unicast,
  is_node_alived,
}
use cs425_mps.RMulticast.{RMulticast, r_multicast_path, r_multicast}
use cs425_mps.TotalOrder.{TotalOrding, ask_proposal_seq, announce_agreement_seq}

abbrev pub ask_proposal_seq_path : Str
ask_proposal_seq_path = codes "/total-ording/ask-proposal-seq"

abbrev pub wait_proposal_seq_path : Str
wait_proposal_seq_path = codes "/total-ording/wait-proposal-seq"

abbrev pub announce_agreement_seq_path : Str
announce_agreement_seq_path = codes "/total-ording/announce-agreement-seq"

-- The codecs of all messages.
pub record Codecs : Type 0 where
  pub b_msg : Codec BMsg
  pub r_msg : Codec RMsg
  pub ask : Codec ToAskProposalSeqMsg
  pub reply : Codec ToReplyProposalSeqMsg
  pub announce : Codec ToAnnounceAgreementSeqMsg
  pub to_msg : Codec ToMsg

-- The total order and what stands above it. `votes` is the channel to the collector of votes, which
-- is taken to have room.
pub record Above (A : Type 0) : Type 0 where
  pub total : TotalOrding
  pub votes : List ProposalItem
  pub app : A

-- A node: the reliable multicast holds the basic one.
pub record Process (A : Type 0) : Type 0 where
  pub rmulticast : RMulticast
  pub above : Above A

-- The handlers on the router of the reliable multicast.
pub data RHandler : Type 0 where
  asks_proposal announces_agreement : RHandler

unfoldable pub r_router : Router RHandler
r_router =
    bind (bind new ask_proposal_seq_path asks_proposal) announce_agreement_seq_path
      announces_agreement

unfoldable pub b_router : Router BHandler
b_router =
    bind (bind (bind new b_multicast_path b_deliver) r_multicast_path r_deliver)
      wait_proposal_seq_path wait_proposal_seq

-- `app_run` is the router of the total order, and `now` the clock.
module _ {A : Type 0} (cs : Codecs) (app_run : Str → ToMsg → A → Run (A × Option Error))
    (now : ℕ) where
  unfoldable pub ask_handler :
      RMsg → BMulticast → Above A → Run ((BMulticast × Above A) × Option Error)
  ask_handler msg b u =
      let (ask, failed) = decode_ask cs.ask msg.body in
      let answer : Run ((BMulticast × Above A) × Option Error) = do
        (t, reply) ← ask_proposal_seq u.total b.self_node_id ask
        (b', sent) ← unicast cs.b_msg cs.reply b ask.src_id wait_proposal_seq_path reply
        ok ((b', record u { total = t }), sent)
      in elim failed [ some e ↦ ok ((b, u), some e) | none ↦ answer ]

  unfoldable pub announce_handler :
      RMsg → BMulticast → Above A → Run ((BMulticast × Above A) × Option Error)
  announce_handler msg b u =
      let (announcement, failed) = decode_announce cs.announce msg.body in
      let agree : Run ((BMulticast × Above A) × Option Error) = do
        (t, a, refused) ←
            announce_agreement_seq (decode_to_msg cs.to_msg) app_run (is_node_alived b) now u.total
              u.app announcement
        ok ((b, record u { total = t; app = a }), refused)
      in elim failed [ some e ↦ ok ((b, u), some e) | none ↦ agree ]

  abbrev pub r_handle :
      RHandler → RMsg → BMulticast × Above A → Run ((BMulticast × Above A) × Option Error)
  r_handle asks_proposal msg (b, u) = ask_handler msg b u
  r_handle announces_agreement msg (b, u) = announce_handler msg b u

  -- The router of the reliable multicast.
  unfoldable pub r_run :
      Str → RMsg → BMulticast → Above A → Run ((BMulticast × Above A) × Option Error)
  r_run path msg b u = run r_handle r_router path msg (b, u)

  unfoldable pub wait_handler : BMsg → Above A → Above A × Option Error
  wait_handler msg u =
      let (reply, failed) = decode_reply cs.reply msg.body in
      let vote : ProposalItem = record {
        proposal_seq_num = reply.proposal_seq;
        process_id = reply.process_id;
        msg_id = reply.msg_id;
        body = [];
      } in
      elim failed [
        | some e ↦ (u, some e)
        | none ↦ (record u { votes = u.votes ++ vote ∷ [] }, none)
      ]

  -- The router of the basic multicast. `deliver` is its call by the handler of its own path.
  abbrev pub b_handle :
      (Str → BMsg → Process A → Run (Process A × Option Error))
      → BHandler
      → BMsg
      → Process A
      → Run (Process A × Option Error)
  b_handle deliver b_deliver msg p = deliver msg.path msg p
  b_handle deliver r_deliver msg p = do
    (r, u, failed) ← cs425_mps.RMulticast.r_deliver cs.b_msg cs.r_msg r_run p.rmulticast p.above msg
    ok (record { rmulticast = r; above = u }, failed)
  b_handle deliver wait_proposal_seq msg p =
      let (u, failed) = wait_handler msg p.above in ok (record p { above = u }, failed)

  unfoldable pub b_run : ℕ → Str → BMsg → Process A → Run (Process A × Option Error)
  b_run zero path msg p = out_of_fuel
  b_run (suc fuel) path msg p = run (b_handle (b_run fuel)) b_router path msg p

  -- One line of a connection: a message that does not decode is logged, and handed on all the same.
  unfoldable pub handle_frame : ℕ → Bytes → Process A → Run (Process A × Option Error)
  handle_frame fuel line p = b_run fuel b_multicast_path (decode_b_msg cs.b_msg line).0 p

-- `Multicast` of the total order: the message goes out with a request for proposals.
unfoldable pub to_multicast :
    {V : Type 0}
    → Codecs
    → Codec V
    → (Bytes → Bytes)
    → Str
    → Str
    → RMulticast
    → Str
    → V
    → Run (RMulticast × Option Error)
to_multicast cs cv sum to_uuid r_uuid r path v = elim (new_to_msg cv path v) [
  | Result.err e ↦ ok (r, some e)
  | Result.ok tomsg ↦ elim (encode_to_msg cs.to_msg tomsg) [
    | Result.err e ↦ ok (r, some e)
    | Result.ok bytes ↦
        r_multicast cs.b_msg cs.r_msg cs.ask sum r_uuid r ask_proposal_seq_path
          (new_to_ask_proposal_seq_msg sum to_uuid r.bmulticast.self_node_id bytes)
  ]
]
