-- ===== src/Command/Events.antt =====
-- cmd/mp1/root.go over the multicasts of all layers: what becomes of the events of the input.
use mathlib.Core.Path.{subst}
use mathlib.Core.List.{append_assoc, append-nil}
use cs425_mps.Base.{Option, ℕ, zero, suc, ◌+◌, ◌≡◌, refl, sym, ap, ◌∙◌, List, [], ◌∷◌, ◌++◌, length}
use cs425_mps.Base.Text.{Str}
use cs425_mps.Base.Run.{Returns, returns, Returns-bind}
use cs425_mps.BMulticast.{Members}
use cs425_mps.Base.Result.{Error}
use cs425_mps.Codec.{Codec, Bytes}
use cs425_mps.Router.{Msg}
use cs425_mps.Event.{Event, Deposit, Transfer}
use cs425_mps.BMulticast.Send.{survivors, frames, IsMembers, survivors-IsMembers}
use cs425_mps.RMulticast.{RMulticast}
use cs425_mps.Node.{Codecs}
use cs425_mps.Command.{Uuids, multicast_events}
use cs425_mps.Command.Request.{AreLossless, Carries, Goes, to_multicast-Goes}

-- The members after `n` multicasts.
abbrev pub rounds : ℕ → Members → Members
rounds zero d = d
rounds (suc n) d = rounds n (survivors d)

-- The frames of multicasts one after the other: each goes to those that still take it.
abbrev pub all_frames : List Bytes → Members → List (Str × Bytes)
all_frames [] d = []
all_frames (b ∷ bs) d = frames b (survivors d) ++ all_frames bs (survivors d)

-- One frame for each event.
abbrev pub AllCarry :
    Codecs → Codec Deposit → Codec Transfer → Str → List Bytes → List (Msg Event) → Type 0
AllCarry cs cd ct self [] [] = Unit
AllCarry cs cd ct self (b ∷ bs) (m ∷ ms) = Carries cs cd ct self b m × AllCarry cs cd ct self bs ms
AllCarry cs cd ct self _ _ = ⊥

module _ (cs : Codecs) (cv : Codec Event) (cd : Codec Deposit) (ct : Codec Transfer)
    (sum : Bytes → Bytes) (lossless : AreLossless cs cv cd ct) where
  -- What multicasts of the events make of the layers.
  pub record AllGo (r : RMulticast) (msgs : List (Msg Event)) (x : RMulticast × List Error)
      : Type 0 where
    pub bytes : List Bytes
    pub all_carry : AllCarry cs cd ct r.bmulticast.self_node_id bytes msgs
    pub no_errors : x.1 ≡ []
    pub received : x.0.received ≡ r.received
    pub delivered : x.0.delivered ≡ r.delivered
    pub senders : x.0.bmulticast.senders ≡ rounds (length msgs) r.bmulticast.senders
    pub written :
        x.0.bmulticast.written ≡ r.bmulticast.written ++ all_frames bytes r.bmulticast.senders

  one_more :
      (r r' : RMulticast) (failed : Option Error) (b : Bytes) (msg : Msg Event)
      (msgs : List (Msg Event)) (x : RMulticast × List Error)
      → Carries cs cd ct r.bmulticast.self_node_id b msg
      → Goes cs cv cd ct sum lossless r r' failed b
      → AllGo r' msgs x
      → AllGo r (msg ∷ msgs) x
  one_more r r' failed b msg msgs x carries goes h = record {
    bytes = b ∷ h.bytes;
    all_carry = (
      carries,
      subst (λ self. AllCarry cs cd ct self h.bytes msgs) goes.reaches.self h.all_carry,
    );
    no_errors = h.no_errors;
    received = h.received ∙ goes.received;
    delivered = h.delivered ∙ goes.delivered;
    senders = h.senders ∙ ap (rounds (length msgs)) goes.reaches.senders;
    written =
        h.written
        ∙ ap (λ d. r'.bmulticast.written ++ all_frames h.bytes d) goes.reaches.senders
        ∙ ap (λ w. w ++ all_frames h.bytes (survivors r.bmulticast.senders)) goes.reaches.written
        ∙ append_assoc r.bmulticast.written _ _;
  }

  -- With members that are a map without a nil client, and codecs that read back what they write,
  -- the goroutine that multicasts the events of the input does not panic, meets no error and
  -- leaves what was received and handed on as it was; for each event, in order, it writes one
  -- frame to every member that takes that frame and all before it, and ejects the others; and the
  -- frame decodes, layer by layer, to a request of this node for a proposal, whose body decodes to
  -- the path of the event and the event.
  pub multicast_events_correct :
      (uuids : Uuids) (i : ℕ) (r : RMulticast) (msgs : List (Msg Event))
      → IsMembers r.bmulticast.senders
      → Returns (AllGo r msgs) (multicast_events cs cv sum uuids i r msgs)
  unfolding multicast_events
  multicast_events_correct uuids i r [] m = returns (record {
    bytes = [];
    all_carry = tt;
    no_errors = refl;
    received = refl;
    delivered = refl;
    senders = refl;
    written = sym (append-nil r.bmulticast.written);
  })
  multicast_events_correct uuids i r (msg ∷ msgs) m =
      let (b, carries, sent) =
        to_multicast-Goes cs cv cd ct sum lossless (uuids.total i) (uuids.reliable i) r msg m in
      Returns-bind sent λ y goes.
        let map : IsMembers y.0.bmulticast.senders =
          subst IsMembers (sym goes.reaches.senders) (survivors-IsMembers r.bmulticast.senders m) in
        Returns-bind (multicast_events_correct uuids (i + 1) y.0 msgs map)
          λ x h. rw goes.fine (returns (one_more r y.0 y.1 b msg msgs x carries goes h))
