-- ===== src/Command/Tests.antt =====
-- A node with one member that takes a frame, one that takes two, and two events.
use cs425_mps.Base.{some, ◌≡◌, refl, true, none, List, [], ◌∷◌, ◌++◌, length}
use cs425_mps.Base.Int.{pos}
use cs425_mps.Base.Text.{codes, str_eq}
use cs425_mps.Base.Dict.{lookup}
use cs425_mps.Codec.{Codec, Bytes}
use cs425_mps.Codec.Prefixed.{prefixed-IsLossless}
use cs425_mps.Router.{Msg}
use cs425_mps.Event.{Event, deposits, transfers, deposit_path, transfer_path}
use cs425_mps.Processor.Tests.{
  deposit_codec, transfer_codec, deposit_codec-IsLossless, transfer_codec-IsLossless,
}
use cs425_mps.BMulticast.Send.{IsMembers}
use cs425_mps.BMulticast.{BMulticast}
use cs425_mps.RMulticast.{RMulticast}
use cs425_mps.Node.Tests.{codecs, count_one, node, node-ProcessIsValid}
use cs425_mps.Command.{Uuids, multicast_events}
use cs425_mps.Base.Run.{Returns}
use cs425_mps.RMulticast.{new_r_multicast}
use cs425_mps.Node.{handle_frame}
use cs425_mps.Command.Request.{AreLossless, marshal_event, Carries, to_multicast-Goes}
use cs425_mps.Command.Arrival.{IsArrived, request_arrives}
use cs425_mps.Command.Events.{AllGo, multicast_events_correct}

-- Only what it writes is used.
abbrev event_codec : Codec Event
event_codec = record {
  marshal = marshal_event deposit_codec transfer_codec;
  unmarshal = λ bytes. (deposits (record { account = []; amount = pos 0 }), none);
}

codecs-AreLossless : AreLossless codecs event_codec deposit_codec transfer_codec
codecs-AreLossless = record {
  event = λ e. refl;
  deposit = deposit_codec-IsLossless;
  transfer = transfer_codec-IsLossless;
  to_msg =
      prefixed-IsLossless (λ m. ([], m.path, m.body))
        (λ one two body. record { path = two; body = body }) λ m. refl;
  ask =
      prefixed-IsLossless (λ m. (m.src_id, m.msg_id, m.body))
        (λ one two body. record { src_id = one; msg_id = two; body = body }) λ m. refl;
  r_msg =
      prefixed-IsLossless (λ m. (m.id, m.path, m.body))
        (λ one two body. record { id = one; path = two; body = body }) λ m. refl;
  b_msg =
      prefixed-IsLossless (λ m. (m.src_id, m.path, m.body))
        (λ one two body. record { src_id = one; path = two; body = body }) λ m. refl;
}

abbrev uuids : Uuids
uuids = record { total = λ n. codes "t" ++ (n ∷ []); reliable = λ n. codes "r" ++ (n ∷ []) }

abbrev group : BMulticast
group = record {
  self_node_id = codes "n1";
  senders =
      (
        codes "n1",
        some (record {
          src_id = codes "n1";
          dst_id = codes "n1";
          addr = codes "n1";
          connection = true ∷ true ∷ [];
        }),
      )
      ∷ (
        codes "n2",
        some (record {
          src_id = codes "n1";
          dst_id = codes "n2";
          addr = codes "n2";
          connection = true ∷ [];
        }),
      )
      ∷ [];
  published = [];
  written = [];
}

group-IsMembers : IsMembers group.senders
unfolding lookup str_eq
group-IsMembers = (refl, (refl, tt))

abbrev layers : RMulticast
layers = record { bmulticast = group; received = []; delivered = [] }

abbrev events : List (Msg Event)
events =
    record { path = deposit_path; body = deposits (record { account = codes "a"; amount = pos 5 }) }
    ∷ record {
      path = transfer_path;
      body =
          transfers (record { from_account = codes "a"; to_account = codes "b"; amount = pos 2 });
    }
    ∷ []

abbrev sha : Bytes → Bytes
sha bytes = length bytes ∷ []

multicast_events_correct_example :
    Returns
      (AllGo codecs event_codec deposit_codec transfer_codec sha codecs-AreLossless layers events)
      (multicast_events codecs event_codec sha uuids 0 layers events)
multicast_events_correct_example =
    multicast_events_correct codecs event_codec deposit_codec transfer_codec sha codecs-AreLossless
      uuids 0 layers events group-IsMembers

-- A member that is not the node of the example.
abbrev other : RMulticast
other = record layers { bmulticast = record group { self_node_id = codes "n2" } }

abbrev gift : Msg Event
gift = record {
  path = deposit_path;
  body = deposits (record { account = codes "a"; amount = pos 5 });
}

abbrev sent : (bytes : Bytes) × Carries codecs deposit_codec transfer_codec (codes "n2") bytes gift
sent =
    let (bytes, c, goes) =
      to_multicast-Goes codecs event_codec deposit_codec transfer_codec sha codecs-AreLossless
        (codes "t1") (codes "r1") other gift group-IsMembers in
    (bytes, c)

fresh : lookup sent.1.r.id node.rmulticast.received ≡ none
unfolding new_r_multicast lookup
fresh = refl

request_arrives_example :
    Returns
      (λ x. IsArrived sent.1.r.id sent.1.a node x.0)
      (handle_frame codecs count_one 7 2 sent.0 node)
request_arrives_example =
    request_arrives codecs count_one 7 deposit_codec transfer_codec 0 (codes "n2") sent.0 gift node
      codecs-AreLossless.r_msg codecs-AreLossless.b_msg sent.1 fresh node-ProcessIsValid.members
      node-ProcessIsValid.total
