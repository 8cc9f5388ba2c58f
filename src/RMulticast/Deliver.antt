-- ===== src/RMulticast/Deliver.antt =====
-- What one message does to a node.
use cs425_mps.Base.{
  ◌≡◌, refl, ◌≢◌, ◌⊎◌, inl, inr, Option, none, some, [], ◌∷◌, ◌++◌, arith, Bool-cases, Option-cases,
}
use cs425_mps.Base.Text.{Str, str_eq, str_eq_iff}
use cs425_mps.Base.Dict.{lookup, insert}
use cs425_mps.Base.Run.{Run, ok, Returns, returns, Returns-inv, Returns-bind}
use cs425_mps.Base.Result.{Error, Result, err}
use cs425_mps.Codec.{Codec, Bytes}
use cs425_mps.Message.{BMsg, RMsg, decode_r_msg}
use cs425_mps.BMulticast.{BMulticast, pack}
use cs425_mps.BMulticast.Send.{
  Reaches, multicast_correct, multicast_unsent, IsMembers, survivors-IsMembers,
}
use cs425_mps.RMulticast.{
  RMulticast, r_multicast_path, add_msg_if_not_exist, hand_on, relay, r_deliver,
}

-- Whether a message packs.
pack-cases :
    {V : Type 0} (r : Result V) → ((e : Error) × (r ≡ err e)) ⊎ ((a : V) × (r ≡ Result.ok a))
pack-cases (Result.ok a) = inr (a, refl)
pack-cases (err e) = inl (e, refl)

module _ {S : Type 0} (cb : Codec BMsg) (cr : Codec RMsg)
    (run : Str → RMsg → BMulticast → S → Run ((BMulticast × S) × Option Error)) where
  -- A new message is relayed to the group before it is handed on, unless this node sent it.
  pub record Relays (b : BMulticast) (msg : BMsg) (m : RMsg) (sent : BMulticast) : Type 0 where
    pub own : msg.src_id ≡ b.self_node_id → sent ≡ b
    pub others :
        msg.src_id ≢ b.self_node_id
        → (bytes : Bytes) × (pack cb cr b r_multicast_path m ≡ Result.ok bytes)
          × Reaches [] b.senders bytes b sent

  pub data RDelivers (r : RMulticast) (s : S) (msg : BMsg)
      : RMulticast × S × Option Error → Type 0 where
    undecodable :
        (e : Error) → (decode_r_msg cr msg.body).1 ≡ some e → RDelivers r s msg (r, s, some e)
    unsent :
        (e : Error)
        → (decode_r_msg cr msg.body).1 ≡ none
        → lookup (decode_r_msg cr msg.body).0.id r.received ≡ none
        → msg.src_id ≢ r.bmulticast.self_node_id
        → pack cb cr r.bmulticast r_multicast_path (decode_r_msg cr msg.body).0 ≡ err e
        → RDelivers r s msg (
          record r { received = insert (decode_r_msg cr msg.body).0.id tt r.received },
          s,
          some e,
        )
    duplicate :
        (decode_r_msg cr msg.body).1 ≡ none
        → lookup (decode_r_msg cr msg.body).0.id r.received ≢ none
        → RDelivers r s msg (r, s, none)
    first :
        (sent : BMulticast) (x : (BMulticast × S) × Option Error)
        → (decode_r_msg cr msg.body).1 ≡ none
        → lookup (decode_r_msg cr msg.body).0.id r.received ≡ none
        → Relays r.bmulticast msg (decode_r_msg cr msg.body).0 sent
        → run (decode_r_msg cr msg.body).0.path (decode_r_msg cr msg.body).0 sent s ≡ ok x
        → RDelivers r s msg (
          record {
            bmulticast = x.0.0;
            received = insert (decode_r_msg cr msg.body).0.id tt r.received;
            delivered = r.delivered ++ (decode_r_msg cr msg.body).0.id ∷ [];
          },
          x.0.1,
          x.1,
        )

  module _ (I : S → Type 0) where
    -- What is kept: the members are a map without nil, and the state of the handlers has its invariant.
    abbrev pub Kept : BMulticast → S → Type 0
    Kept b s = IsMembers b.senders × I s

    -- A call of a handler of this layer returns, and keeps that.
    abbrev pub RunReturns : Type 0
    RunReturns =
        (path : Str) (m : RMsg) (b : BMulticast) (s : S)
        → Kept b s
        → Returns (λ x. Kept x.0.0 x.0.1) (run path m b s)

    abbrev pub Delivered : RMulticast → S → BMsg → RMulticast × S × Option Error → Type 0
    Delivered r s msg u = RDelivers r s msg u × Kept u.0.bmulticast u.1

    module _ (run_returns : RunReturns) (r : RMulticast) (s : S) (msg : BMsg)
        (kept : Kept r.bmulticast s) (good : (decode_r_msg cr msg.body).1 ≡ none)
        (new : lookup (decode_r_msg cr msg.body).0.id r.received ≡ none) where
      abbrev marked : BMulticast → RMulticast
      marked b = record {
        bmulticast = b;
        received = insert (decode_r_msg cr msg.body).0.id tt r.received;
        delivered = r.delivered;
      }

      hand_on-RDelivers :
          (sent : BMulticast)
          → IsMembers sent.senders
          → Relays r.bmulticast msg (decode_r_msg cr msg.body).0 sent
          → Returns
              (Delivered r s msg)
              (hand_on cb cr run (marked sent) s (decode_r_msg cr msg.body).0)
      unfolding hand_on
      hand_on-RDelivers sent map relays =
          let m = (decode_r_msg cr msg.body).0 in
          let (x, e, after) = Returns-inv (run_returns m.path m sent s (map, kept.1)) in
          rw (e, hand_on) (returns (first sent x good new relays e, after))

      relay-RDelivers :
          msg.src_id ≢ r.bmulticast.self_node_id
          → Returns
              (Delivered r s msg)
              (relay cb cr run (marked r.bmulticast) s (decode_r_msg cr msg.body).0)
      unfolding relay
      relay-RDelivers ne =
          let m = (decode_r_msg cr msg.body).0 in
          let b = r.bmulticast in
          elim (pack-cases (pack cb cr b r_multicast_path m)) [
            | inl (e, bad) ↦
                let failed = multicast_unsent cb cr b r_multicast_path m e bad in
                rw (failed, relay) (returns (unsent e good new ne bad, kept))
            | inr (bytes, packed) ↦
                Returns-bind (multicast_correct cb cr b r_multicast_path m bytes kept.0 packed)
                  λ x (reaches, sent). rw sent (
                    hand_on-RDelivers x.0
                      (rw reaches.senders (survivors-IsMembers b.senders kept.0))
                      (record { own = λ e. absurd (ne e); others = λ h. (bytes, packed, reaches) }))
          ]

      new-RDelivers : Returns (Delivered r s msg) (r_deliver cb cr run r s msg)
      unfolding r_deliver add_msg_if_not_exist
      new-RDelivers =
          let b = r.bmulticast in
          elim (Bool-cases (str_eq msg.src_id b.self_node_id)) [
            | inl own ↦
                let same = (str_eq_iff msg.src_id b.self_node_id).0 own in
                rw (good, new, own, add_msg_if_not_exist, r_deliver)
                  (hand_on-RDelivers b kept.0
                    (record { own = λ e. refl; others = λ ne. absurd (ne same) }))
            | inr other ↦
                let ne : msg.src_id ≢ b.self_node_id =
                  λ e. ground (arith, other, str_eq_iff msg.src_id b.self_node_id, e) in
                rw (good, new, other, add_msg_if_not_exist, r_deliver) (relay-RDelivers ne)
          ]

    -- With members that are a map without a nil client, and handlers that return and keep that and
    -- their own invariant, one message of the reliable multicast is handled to the end and keeps
    -- the same; it either does not decode and is an error; or is a duplicate and changes nothing;
    -- or is new and does not pack for the relay, and is marked but not handed on; or is new, is
    -- marked, is sent on to all members unless this node sent it, and is then handed on.
    pub r_deliver_correct :
        (run_returns : RunReturns) (r : RMulticast) (s : S) (msg : BMsg)
        → Kept r.bmulticast s
        → Returns (Delivered r s msg) (r_deliver cb cr run r s msg)
    unfolding r_deliver add_msg_if_not_exist
    r_deliver_correct run_returns r s msg kept =
        let m = (decode_r_msg cr msg.body).0 in
        elim (Option-cases (decode_r_msg cr msg.body).1) [
          | inr (e, bad) ↦ rw (bad, r_deliver) (returns (undecodable e bad, kept))
          | inl good ↦ elim (Option-cases (lookup m.id r.received)) [
            | inr (u, old) ↦
                rw (good, old, add_msg_if_not_exist, r_deliver)
                  (returns (duplicate good (λ h. absurd (ground (arith, h, old))), kept))
            | inl new ↦ new-RDelivers run_returns r s msg kept good new
          ]
        ]
