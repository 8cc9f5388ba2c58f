-- ===== src/BMulticast.antt =====
-- lib/mp1/multicast/b_multicast.go: the basic multicast, over one connection to each member. The locks
-- make each method one step. The start of the server and the clients is in Startup.
pub mod Send
mod Tests
use cs425_mps.Base.{
  ℕ, Bool, true, false, Option, none, some, List, [], ◌∷◌, ◌++◌, if◌then◌else◌, length,
}
use cs425_mps.Base.Text.{Str, codes}
use cs425_mps.Base.Dict.{Dict, lookup, insert, delete}
use cs425_mps.Base.Run.{Run, panic}
use cs425_mps.Base.Run
use cs425_mps.Base.Result.{Error, Result, ok, err, ◌>>=◌, no_sender}
use cs425_mps.Codec.{Codec, Bytes}
use cs425_mps.Client.{TcpClient, send, frame}
use cs425_mps.Message.{BMsg, new_b_msg, encode_b_msg}

-- The handlers that are bound to the router of this layer.
pub data BHandler : Type 0 where
  b_deliver r_deliver wait_proposal_seq : BHandler

-- The members. A client is a pointer, and nil is none: the start adds that for a member whose handshake
-- failed.
abbrev pub Members : Type 0
Members = Dict (Option TcpClient)

-- `published` are the counts that were published to the broker, and `written` the frames that were
-- written, with the member that each went to.
pub record BMulticast : Type 0 where
  pub self_node_id : Str
  pub senders : Members
  pub published : List ℕ
  pub written : List (Str × Bytes)

abbrev pub b_multicast_path : Str
b_multicast_path = codes "/b-multicast"

unfoldable pub new_b_multicast : Str → BMulticast
new_b_multicast self_node_id = record {
  self_node_id = self_node_id;
  senders = [];
  published = [];
  written = [];
}

unfoldable pub add_member : BMulticast → Str → Option TcpClient → BMulticast
add_member b node_id client = record b { senders = insert node_id client b.senders }

unfoldable pub member_count : BMulticast → ℕ
member_count b = length b.senders

unfoldable pub is_node_alived : BMulticast → Str → Bool
is_node_alived b node_id = elim (lookup node_id b.senders) [ none ↦ false | some _ ↦ true ]

-- The frame of a message, by its constructor and `Encode`.
unfoldable pub pack : {V : Type 0} → Codec BMsg → Codec V → BMulticast → Str → V → Result Bytes
pack cb cv b path v = do m ← new_b_msg cv b.self_node_id path v; encode_b_msg cb m

-- A write to one member. A member whose connection is lost leaves the group, and the new count is
-- published.
abbrev pub write_to : BMulticast → Str → TcpClient → Bytes → BMulticast × Option Error
write_to b dst_id sender bytes =
    let (client, failed) = send sender bytes in
    elim failed [
      | none ↦ (
        record b {
          senders = insert dst_id (some client) b.senders;
          written = b.written ++ (dst_id, frame bytes) ∷ [];
        },
        none,
      )
      | some e ↦
          let left = delete dst_id b.senders in
          (record b { senders = left; published = b.published ++ length left ∷ [] }, some e)
    ]

-- `Send` on nil panics.
unfoldable pub send_to :
    BMulticast → Str → Option TcpClient → Bytes → Run (BMulticast × Option Error)
send_to b dst_id none bytes = panic
send_to b dst_id (some sender) bytes = Run.ok (write_to b dst_id sender bytes)

unfoldable pub unicast :
    {V : Type 0}
    → Codec BMsg
    → Codec V
    → BMulticast
    → Str
    → Str
    → V
    → Run (BMulticast × Option Error)
unfolding pack
unicast cb cv b dst_id path v = elim (lookup dst_id b.senders) [
  | none ↦ Run.ok (b, some no_sender)
  | some sender ↦ elim (pack cb cv b path v) [
    | err e ↦ Run.ok (b, some e)
    | ok bytes ↦ send_to b dst_id sender bytes
  ]
]

-- The loop over the members, as they were when it began.
unfoldable pub multicast_loop : Members → Bytes → BMulticast → Run BMulticast
multicast_loop [] bytes b = Run.ok b
multicast_loop ((dst_id, sender) ∷ rest) bytes b =
    Run.◌>>=◌ (send_to b dst_id sender bytes) λ r. multicast_loop rest bytes r.0

unfoldable pub multicast :
    {V : Type 0} → Codec BMsg → Codec V → BMulticast → Str → V → Run (BMulticast × Option Error)
unfolding pack
multicast cb cv b path v = elim (pack cb cv b path v) [
  | err e ↦ Run.ok (b, some e)
  | ok bytes ↦ Run.◌>>=◌ (multicast_loop b.senders bytes b) λ r. Run.ok (r, none)
]
