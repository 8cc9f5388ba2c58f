-- ===== src/RMulticast.antt =====
-- lib/mp1/multicast/r_multicast.go: the reliable multicast, over the basic one. Each node relays a
-- message to its group when it sees it first, and hands it on. The locks make each part one step.
pub mod Deliver
pub mod Once
mod Tests
use cs425_mps.Base.{Bool, true, false, Option, none, some, List, [], ◌∷◌, ◌++◌, if◌then◌else◌}
use cs425_mps.Base.Text.{Str, codes, str_eq}
use cs425_mps.Base.Dict.{Dict, lookup, insert}
use cs425_mps.Base.Run.{Run, ok, ◌>>=◌}
use cs425_mps.Base.Result.{Error, Result}
use cs425_mps.Codec.{Codec, Bytes}
use cs425_mps.Message.{BMsg, RMsg, new_r_msg, decode_r_msg}
use cs425_mps.BMulticast.{BMulticast, multicast}

-- `delivered` are the identifiers of the messages that were handed to the router, in order.
pub record RMulticast : Type 0 where
  pub bmulticast : BMulticast
  pub received : Dict (Unit {0})
  pub delivered : List Str

abbrev pub r_multicast_path : Str
r_multicast_path = codes "/r-multicast"

unfoldable pub new_r_multicast : BMulticast → RMulticast
new_r_multicast b = record { bmulticast = b; received = []; delivered = [] }

unfoldable pub add_msg_if_not_exist : RMulticast → Str → RMulticast × Bool
add_msg_if_not_exist r msg_id = elim (lookup msg_id r.received) [
  | none ↦ (record r { received = insert msg_id tt r.received }, true)
  | some _ ↦ (r, false)
]

-- `sum` and `uuid` make the identifier of the message.
unfoldable pub r_multicast :
    {V : Type 0}
    → Codec BMsg
    → Codec RMsg
    → Codec V
    → (Bytes → Bytes)
    → Str
    → RMulticast
    → Str
    → V
    → Run (RMulticast × Option Error)
unfolding new_r_msg
r_multicast cb cr cv sum uuid r path v = elim (new_r_msg cv sum uuid path v) [
  | Result.err e ↦ ok (r, some e)
  | Result.ok m ↦ do
    (b, failed) ← multicast cb cr r.bmulticast r_multicast_path m
    ok (record r { bmulticast = b }, failed)
]

-- The handler of the path of this layer. `run` is the router of this layer: its handlers send
-- messages of the basic multicast, and act on a state of their own.
module _ {S : Type 0} (cb : Codec BMsg) (cr : Codec RMsg)
    (run : Str → RMsg → BMulticast → S → Run ((BMulticast × S) × Option Error)) where
  -- The last line of the handler: the router runs.
  unfoldable pub hand_on : RMulticast → S → RMsg → Run (RMulticast × S × Option Error)
  hand_on r s rmsg = do
    ((b, s'), failed) ← run rmsg.path rmsg r.bmulticast s
    ok (record r { bmulticast = b; delivered = r.delivered ++ rmsg.id ∷ [] }, s', failed)

  -- A message of another node is sent on before it is handed on.
  unfoldable pub relay : RMulticast → S → RMsg → Run (RMulticast × S × Option Error)
  relay r s rmsg = do
    (b, unsent) ← multicast cb cr r.bmulticast r_multicast_path rmsg
    elim unsent [
      | some e ↦ ok (record r { bmulticast = b }, s, some e)
      | none ↦ hand_on (record r { bmulticast = b }) s rmsg
    ]

  unfoldable pub r_deliver : RMulticast → S → BMsg → Run (RMulticast × S × Option Error)
  r_deliver r s msg =
      let (rmsg, failed) = decode_r_msg cr msg.body in
      let (marked, new) = add_msg_if_not_exist r rmsg.id in
      let own = str_eq msg.src_id r.bmulticast.self_node_id in
      elim failed [
        | some e ↦ ok (r, s, some e)
        | none ↦
            if new
            then (if own then hand_on marked s rmsg else relay marked s rmsg)
            else ok (marked, s, none)
      ]
