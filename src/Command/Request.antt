-- ===== src/Command/Request.antt =====
-- cmd/mp1/root.go over the layers: one event goes out as a request for a proposal.
use mathlib.Core.Path.{subst}
use cs425_mps.Base.{◌≡◌, refl, sym, ◌∙◌, Option, none, [], ◌∷◌, ◌++◌, arith}
use cs425_mps.Base.Text.{Str}
use cs425_mps.Base.Run.{Run, ok, ◌>>=◌, Returns, returns, Returns-bind}
use cs425_mps.Base.Result.{Error, Result}
use cs425_mps.Codec.{Codec, Bytes, IsLossless}
use cs425_mps.Message.{
  BMsg, RMsg, ToAskProposalSeqMsg, ToMsg, new_b_msg, encode_b_msg, decode_b_msg, sha1, new_r_msg,
  decode_r_msg, decode_ask, new_to_msg, encode_to_msg, decode_to_msg, new_to_ask_proposal_seq_msg,
}
use cs425_mps.Router.{Msg}
use cs425_mps.Event.{Event, deposits, transfers, Deposit, Transfer}
use cs425_mps.BMulticast.{BMulticast, pack, multicast}
use cs425_mps.BMulticast.Send.{IsMembers, Reaches, multicast_correct}
use cs425_mps.RMulticast.{RMulticast, r_multicast, r_multicast_path}
use cs425_mps.Node.{Codecs, ask_proposal_seq_path, to_multicast}

-- What the event marshals to: an interface value is written as the struct in it.
abbrev pub marshal_event : Codec Deposit → Codec Transfer → Event → Result Bytes
marshal_event cd ct (deposits d) = cd.marshal d
marshal_event cd ct (transfers x) = ct.marshal x

-- The bytes decode to the event, as the handler of its path does that.
abbrev pub EventRead : Codec Deposit → Codec Transfer → Bytes → Event → Type 0
EventRead cd ct bytes (deposits d) = cd.unmarshal bytes ≡ (d, none)
EventRead cd ct bytes (transfers x) = ct.unmarshal bytes ≡ (x, none)

-- The codecs on the way of an event read back what they write.
pub record AreLossless (cs : Codecs) (cv : Codec Event) (cd : Codec Deposit) (ct : Codec Transfer)
    : Type 0 where
  pub event : (e : Event) → cv.marshal e ≡ marshal_event cd ct e
  pub deposit : IsLossless cd
  pub transfer : IsLossless ct
  pub to_msg : IsLossless cs.to_msg
  pub ask : IsLossless cs.ask
  pub r_msg : IsLossless cs.r_msg
  pub b_msg : IsLossless cs.b_msg

-- The bytes are those of a request of the node for a proposal, with the event in it.
pub record Carries (cs : Codecs) (cd : Codec Deposit) (ct : Codec Transfer) (self : Str)
    (bytes : Bytes) (msg : Msg Event) : Type 0 where
  pub b : BMsg
  pub b_read : decode_b_msg cs.b_msg bytes ≡ (b, none)
  pub b_path : b.path ≡ r_multicast_path
  pub b_src : b.src_id ≡ self
  pub r : RMsg
  pub r_read : decode_r_msg cs.r_msg b.body ≡ (r, none)
  pub r_path : r.path ≡ ask_proposal_seq_path
  pub a : ToAskProposalSeqMsg
  pub a_read : decode_ask cs.ask r.body ≡ (a, none)
  pub a_src : a.src_id ≡ self
  pub t : ToMsg
  pub t_read : decode_to_msg cs.to_msg a.body ≡ (t, none)
  pub t_path : t.path ≡ msg.path
  pub event_read : EventRead cd ct t.body msg.body

module _ (cs : Codecs) (cv : Codec Event) (cd : Codec Deposit) (ct : Codec Transfer)
    (sum : Bytes → Bytes) (lossless : AreLossless cs cv cd ct) where
  event-EventRead :
      (e : Event) → (bytes : Bytes) × (cv.marshal e ≡ Result.ok bytes) × EventRead cd ct bytes e
  event-EventRead (deposits d) =
      let (bytes, written) = lossless.deposit.marshals d in
      (bytes, lossless.event (deposits d) ∙ written, lossless.deposit.reads_back d bytes written)
  event-EventRead (transfers x) =
      let (bytes, written) = lossless.transfer.marshals x in
      (bytes, lossless.event (transfers x) ∙ written, lossless.transfer.reads_back x bytes written)

  -- One multicast of an event.
  pub record Goes (r r' : RMulticast) (failed : Option Error) (bytes : Bytes) : Type 0 where
    pub fine : failed ≡ none
    pub received : r'.received ≡ r.received
    pub delivered : r'.delivered ≡ r.delivered
    pub reaches : Reaches [] r.bmulticast.senders bytes r.bmulticast r'.bmulticast

  -- The request that an event is sent in.
  abbrev asks : Str → Str → Bytes → ToAskProposalSeqMsg
  asks to_uuid self t_bytes = new_to_ask_proposal_seq_msg sum to_uuid self t_bytes

  abbrev r_msg : Str → Bytes → RMsg
  r_msg r_uuid a_bytes = record {
    id = r_uuid ++ (b'-' ∷ sha1 sum a_bytes);
    path = ask_proposal_seq_path;
    body = a_bytes;
  }

  abbrev b_msg : Str → Bytes → BMsg
  b_msg self r_bytes = record { src_id = self; path = r_multicast_path; body = r_bytes }

  abbrev sent_with : RMulticast → BMulticast × Option Error → Run (RMulticast × Option Error)
  sent_with r x = ok (record r { bmulticast = x.0 }, x.1)

  to_multicast-shape :
      (to_uuid r_uuid : Str) (r : RMulticast) (msg : Msg Event)
      (event_bytes t_bytes a_bytes : Bytes)
      → cv.marshal msg.body ≡ Result.ok event_bytes
      → cs.to_msg.marshal (record { path = msg.path; body = event_bytes }) ≡ Result.ok t_bytes
      → cs.ask.marshal (asks to_uuid r.bmulticast.self_node_id t_bytes) ≡ Result.ok a_bytes
      → to_multicast cs cv sum to_uuid r_uuid r msg.path msg.body ≡ (
          multicast cs.b_msg cs.r_msg r.bmulticast r_multicast_path (r_msg r_uuid a_bytes)
          >>= sent_with r)
  unfolding to_multicast r_multicast new_to_msg encode_to_msg new_r_msg
  to_multicast-shape to_uuid r_uuid r msg event_bytes t_bytes a_bytes e f g =
      ground (arith, e, f, g)

  packs :
      (b : BMulticast) (rm : RMsg) (r_bytes bytes : Bytes)
      → cs.r_msg.marshal rm ≡ Result.ok r_bytes
      → cs.b_msg.marshal (b_msg b.self_node_id r_bytes) ≡ Result.ok bytes
      → pack cs.b_msg cs.r_msg b r_multicast_path rm ≡ Result.ok bytes
  unfolding pack new_b_msg encode_b_msg
  packs b rm r_bytes bytes h k = ground (arith, h, k)

  pub to_multicast-Goes :
      (to_uuid r_uuid : Str) (r : RMulticast) (msg : Msg Event)
      → IsMembers r.bmulticast.senders
      → (bytes : Bytes) × Carries cs cd ct r.bmulticast.self_node_id bytes msg
        × Returns
            (λ x. Goes r x.0 x.1 bytes)
            (to_multicast cs cv sum to_uuid r_uuid r msg.path msg.body)
  unfolding decode_b_msg decode_r_msg decode_ask decode_to_msg new_to_ask_proposal_seq_msg
  to_multicast-Goes to_uuid r_uuid r msg m =
      let self = r.bmulticast.self_node_id in
      let (event_bytes, e, event_read) = event-EventRead msg.body in
      let (t_bytes, f) =
        lossless.to_msg.marshals (record { path = msg.path; body = event_bytes }) in
      let (a_bytes, g) = lossless.ask.marshals (asks to_uuid self t_bytes) in
      let (r_bytes, h) = lossless.r_msg.marshals (r_msg r_uuid a_bytes) in
      let (bytes, k) = lossless.b_msg.marshals (b_msg self r_bytes) in
      let packed = packs r.bmulticast (r_msg r_uuid a_bytes) r_bytes bytes h k in
      let shape = to_multicast-shape to_uuid r_uuid r msg event_bytes t_bytes a_bytes e f g in
      (
        bytes,
        record {
          b = b_msg self r_bytes;
          b_read = lossless.b_msg.reads_back _ bytes k;
          b_path = refl;
          b_src = refl;
          r = r_msg r_uuid a_bytes;
          r_read = lossless.r_msg.reads_back _ r_bytes h;
          r_path = refl;
          a = asks to_uuid self t_bytes;
          a_read = lossless.ask.reads_back _ a_bytes g;
          a_src = refl;
          t = record { path = msg.path; body = event_bytes };
          t_read = lossless.to_msg.reads_back _ t_bytes f;
          t_path = refl;
          event_read = event_read;
        },
        subst (Returns (λ x. Goes r x.0 x.1 bytes)) (sym shape) (
            Returns-bind
              (multicast_correct cs.b_msg cs.r_msg r.bmulticast r_multicast_path
                (r_msg r_uuid a_bytes) bytes m packed)
              λ x (reaches, fine).
                returns
                  (record { fine = fine; received = refl; delivered = refl; reaches = reaches })),
      )
