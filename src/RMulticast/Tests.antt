-- ===== src/RMulticast/Tests.antt =====
-- A message from another node, in a group of two.
use cs425_mps.Base.{ℕ, suc, ◌≡◌, refl, true, Option, some, none, [], ◌∷◌, ◌++◌}
use cs425_mps.Base.Text.{Str, codes, str_eq}
use cs425_mps.Base.Dict.{lookup, insert}
use cs425_mps.Base.Run.{Run, ok, Returns, returns}
use cs425_mps.Base.Result.{Error}
use cs425_mps.Codec.{Codec}
use cs425_mps.Codec.Prefixed.{prefixed}
use cs425_mps.Client.{TcpClient, send}
use cs425_mps.Message.{BMsg, RMsg, decode_r_msg, new_b_msg, encode_b_msg}
use cs425_mps.BMulticast.{BMulticast, multicast, multicast_loop, send_to, pack}
use cs425_mps.BMulticast.Send.{IsMembers}
use cs425_mps.RMulticast.{
  RMulticast, new_r_multicast, add_msg_if_not_exist, hand_on, relay, r_deliver,
}
use cs425_mps.RMulticast.Deliver.{Delivered, Kept, RunReturns, r_deliver_correct}
use cs425_mps.RMulticast.Once.{starts, hears, IsOnce, Hears-IsOnce}

abbrev b_msg_codec : Codec BMsg
b_msg_codec =
    prefixed (λ m. (m.src_id, m.path, m.body))
      λ src_id path body. record { src_id = src_id; path = path; body = body }

abbrev r_msg_codec : Codec RMsg
r_msg_codec =
    prefixed (λ m. (m.id, m.path, m.body))
      λ id path body. record { id = id; path = path; body = body }

abbrev client : Str → Option TcpClient
client id = some (record { src_id = codes "n1"; dst_id = id; addr = id; connection = true ∷ [] })

abbrev group : BMulticast
group = record {
  self_node_id = codes "n1";
  senders = (codes "n1", client (codes "n1")) ∷ (codes "n2", client (codes "n2")) ∷ [];
  published = [];
  written = [];
}

group-IsMembers : IsMembers group.senders
unfolding lookup str_eq
group-IsMembers = (refl, (refl, tt))

-- The router counts the messages.
abbrev count_one : Str → RMsg → BMulticast → ℕ → Run ((BMulticast × ℕ) × Option Error)
count_one path m b n = ok ((b, suc n), none)

-- Nothing is asked of the count.
abbrev NoDemand : ℕ → Type 0
NoDemand n = Unit

count_one-RunReturns : RunReturns b_msg_codec r_msg_codec count_one NoDemand
count_one-RunReturns path m b n kept = returns kept

abbrev incoming : BMsg
incoming = record {
  src_id = codes "n2";
  path = codes "/r-multicast";
  body = 1 ∷ (codes "m" ++ (1 ∷ (codes "p" ++ (7 ∷ []))));
}

r_deliver_correct_example :
    Returns
      (Delivered b_msg_codec r_msg_codec count_one NoDemand (new_r_multicast group) 0 incoming)
      (r_deliver b_msg_codec r_msg_codec count_one (new_r_multicast group) 0 incoming)
unfolding new_r_multicast
r_deliver_correct_example =
    r_deliver_correct b_msg_codec r_msg_codec count_one NoDemand count_one-RunReturns
      (new_r_multicast group) 0 incoming (group-IsMembers, tt)

abbrev value {ℓ} : {A : Type ℓ} → A → Run A → A
value a (ok b) = b
value a _ = a

abbrev after_first : RMulticast × ℕ × Option Error
after_first =
    value (new_r_multicast group, 0, none)
      (r_deliver b_msg_codec r_msg_codec count_one (new_r_multicast group) 0 incoming)

first_runs :
    r_deliver b_msg_codec r_msg_codec count_one (new_r_multicast group) 0 incoming ≡ ok after_first
unfolding r_deliver new_r_multicast decode_r_msg add_msg_if_not_exist lookup str_eq relay multicast
    new_b_msg encode_b_msg hand_on insert multicast_loop send_to send pack
first_runs = refl

abbrev after_second : RMulticast × ℕ × Option Error
after_second =
    value after_first
      (r_deliver b_msg_codec r_msg_codec count_one after_first.0 after_first.1 incoming)

second_runs :
    r_deliver b_msg_codec r_msg_codec count_one after_first.0 after_first.1 incoming
    ≡ ok after_second
unfolding r_deliver new_r_multicast decode_r_msg add_msg_if_not_exist lookup str_eq relay multicast
    new_b_msg encode_b_msg hand_on insert multicast_loop send_to send pack
second_runs = refl

Hears-IsOnce_example :
    IsOnce after_second.0
    × Kept b_msg_codec r_msg_codec count_one NoDemand after_second.0.bmulticast after_second.1
Hears-IsOnce_example =
    Hears-IsOnce b_msg_codec r_msg_codec count_one NoDemand count_one-RunReturns (
      hears after_first.0 after_first.1 incoming after_second
        (hears (new_r_multicast group) 0 incoming after_first (starts group 0 (group-IsMembers, tt))
          first_runs)
        second_runs)

-- The second copy is not handed on.
once : (after_first.1 ≡ 1) × (after_second.1 ≡ 1)
unfolding r_deliver new_r_multicast decode_r_msg add_msg_if_not_exist lookup str_eq relay multicast
    new_b_msg encode_b_msg hand_on insert multicast_loop send_to send pack
once = (refl, refl)
