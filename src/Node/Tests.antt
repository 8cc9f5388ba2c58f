-- ===== src/Node/Tests.antt =====
-- A node of its own group, and frames from another node.
use cs425_mps.Base.{ℕ, ◌+◌, ◌≡◌, refl, ◌≢◌, Option, some, none, [], ◌∷◌, ◌++◌, length, arith}
use cs425_mps.Base.Text.{Str, codes}
use cs425_mps.Base.Dict.{lookup}
use cs425_mps.Base.Run.{Run, ok, out_of_fuel, Returns, returns, Returns-ok}
use cs425_mps.Base.Result.{Error}
use cs425_mps.Codec.{Bytes}
use cs425_mps.Codec.Prefixed.{prefixed}
use cs425_mps.Heap.{init, init_loop}
use cs425_mps.Message.{ToMsg, decode_b_msg}
use cs425_mps.BMulticast.{BMulticast, b_multicast_path}
use cs425_mps.RMulticast.{new_r_multicast, r_multicast_path}
use cs425_mps.RMulticast.Once.{new_r_multicast-IsOnce}
use cs425_mps.TotalOrder.{TotalOrding, new_total_order}
use cs425_mps.TotalOrder.Agreement.{new_total_order_correct}
use cs425_mps.Node.{Codecs, Process, handle_frame, ask_proposal_seq_path}
use cs425_mps.Node.Frame.{ProcessIsValid, frame_loops, frame-Returns}

abbrev head_or_zero : Bytes → ℕ
head_or_zero [] = 0
head_or_zero (n ∷ bytes) = n

abbrev pub codecs : Codecs
codecs = record {
  b_msg =
      prefixed (λ m. (m.src_id, m.path, m.body))
        λ one two body. record { src_id = one; path = two; body = body };
  r_msg =
      prefixed (λ m. (m.id, m.path, m.body))
        λ one two body. record { id = one; path = two; body = body };
  ask =
      prefixed (λ m. (m.src_id, m.msg_id, m.body))
        λ one two body. record { src_id = one; msg_id = two; body = body };
  reply =
      prefixed (λ m. (m.process_id, m.msg_id, m.proposal_seq ∷ []))
        λ one two body. record { process_id = one; msg_id = two; proposal_seq = head_or_zero body };
  announce =
      prefixed (λ m. (m.process_id, m.msg_id, m.agreement_seq ∷ []))
        λ one two body. record {
          process_id = one;
          msg_id = two;
          agreement_seq = head_or_zero body;
        };
  to_msg = prefixed (λ m. ([], m.path, m.body)) λ one two body. record { path = two; body = body };
}

abbrev pub count_one : Str → ToMsg → ℕ → Run (ℕ × Option Error)
count_one path m a = ok (a + 1, none)

pub count_one-Returns :
    (path : Str) (m : ToMsg) (a : ℕ) → Returns (λ r. Unit {0}) (count_one path m a)
count_one-Returns path m a = returns tt

abbrev group : BMulticast
group = record {
  self_node_id = codes "n1";
  senders =
      (
        codes "n2",
        some (record {
          src_id = codes "n1";
          dst_id = codes "n2";
          addr = codes "n2";
          connection = [];
        }),
      )
      ∷ [];
  published = [];
  written = [];
}

abbrev total : TotalOrding
total = record {
  hold_queue_map = [];
  hold_queue = record { memory = []; queue = [] };
  max_agreement_seq_num_of_group = 0;
  max_proposal_seq_num_of_self = 0;
  crash_node_timeout = [];
  delivered = [];
}

total_starts : new_total_order ≡ ok total
unfolding new_total_order init init_loop
total_starts = refl

abbrev pub node : Process ℕ
node = record {
  rmulticast = new_r_multicast group;
  above = record { total = total; votes = []; app = 0 };
}

pub node-ProcessIsValid : ProcessIsValid node
unfolding new_r_multicast lookup
node-ProcessIsValid = record {
  members = (refl, tt);
  once = new_r_multicast-IsOnce group;
  total = (Returns-ok total_starts new_total_order_correct).0;
}

abbrev texts : Str → Str → Bytes → Bytes
texts one two body = length one ∷ (one ++ (length two ∷ (two ++ body)))

-- A request of n2 for a proposal.
abbrev pub request : Bytes
request =
    texts (codes "n2") r_multicast_path
      (texts (codes "m1") ask_proposal_seq_path (texts (codes "n2") (codes "m1") (7 ∷ [])))

pub not_own : (decode_b_msg codecs.b_msg request).0.path ≢ b_multicast_path
unfolding decode_b_msg
not_own e = ground (arith, e)

frame-Returns_example :
    Returns (λ r. ProcessIsValid r.0) (handle_frame codecs count_one 7 2 request node)
frame-Returns_example =
    frame-Returns codecs count_one 7 count_one-Returns request node node-ProcessIsValid not_own

abbrev own_frame : Bytes
own_frame = texts (codes "n2") b_multicast_path []

own : (decode_b_msg codecs.b_msg own_frame).0.path ≡ b_multicast_path
unfolding decode_b_msg
own = refl

frame_loops_example : handle_frame codecs count_one 7 1000 own_frame node ≡ out_of_fuel
frame_loops_example = frame_loops codecs count_one 7 own_frame node 1000 own
