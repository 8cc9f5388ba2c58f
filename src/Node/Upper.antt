-- ===== src/Node/Upper.antt =====
-- The handlers behind the reliable multicast return, and keep the hold queue valid.
use cs425_mps.Base.{◌≡◌, none, arith, inl, inr, Option, some, ℕ, Option-cases}
use cs425_mps.Base.Text.{Str}
use cs425_mps.Base.Dict.{lookup}
use cs425_mps.BMulticast.Send.{IsMembers, insert-IsMembers, delete-IsMembers, lookup-client}
use cs425_mps.Base.Run.{Run, ok, Returns, returns, Returns-bind}
use cs425_mps.Base.Result.{Error, Result}
use cs425_mps.Codec.{Codec, Bytes}
use cs425_mps.Client.{TcpClient, send}
use cs425_mps.Message.{BMsg, RMsg, ToMsg, decode_ask, decode_announce, decode_to_msg}
use cs425_mps.Router.{run}
use cs425_mps.BMulticast.{BMulticast, write_to, unicast, send_to, pack, is_node_alived}
use cs425_mps.RMulticast.Deliver.{RunReturns}
use cs425_mps.TotalOrder.Valid.{IsValid, ask_proposal_seq_correct}
use cs425_mps.TotalOrder.Deliver.{announce_agreement_seq_correct}
use cs425_mps.Node.{
  Codecs, Above, RHandler, asks_proposal, announces_agreement, r_router, ask_handler,
  announce_handler, r_handle, r_run, wait_proposal_seq_path,
}

write_to-IsMembers :
    (b : BMulticast) (k : Str) (c : TcpClient) (bytes : Bytes)
    → IsMembers b.senders
    → IsMembers (write_to b k c bytes).0.senders
write_to-IsMembers b k c bytes h = elim (Option-cases (send c bytes).1) [
  | inl good ↦ rw (good, write_to) (insert-IsMembers k (send c bytes).0 b.senders h)
  | inr (e, bad) ↦ rw (bad, write_to) (delete-IsMembers k b.senders h)
]

pub unicast-IsMembers :
    {V : Type 0} (cb : Codec BMsg) (cv : Codec V) (b : BMulticast) (k path : Str) (v : V)
    → IsMembers b.senders
    → Returns (λ r. IsMembers r.0.senders) (unicast cb cv b k path v)
unfolding unicast send_to
unicast-IsMembers cb cv b k path v h = elim (Option-cases (lookup k b.senders)) [
  | inl missing ↦ rw (missing, unicast) (returns h)
  | inr (sender, found) ↦
      let (c, some_client) = lookup-client k b.senders sender h found in
      rw (found, unicast) (by_pack sender c some_client (pack cb cv b path v))
]
  where
    by_pack :
        (sender : Option TcpClient) (c : TcpClient)
        → sender ≡ some c
        → (r : Result Bytes)
        → Returns
            (λ x. IsMembers x.0.senders)
            (elim r as (λ x. Run (BMulticast × Option Error)) [
              | Result.err e ↦ ok (b, some e)
              | Result.ok bytes ↦ send_to b k sender bytes
            ])
    by_pack sender c e (Result.err x) = returns h
    by_pack none c e (Result.ok bytes) = absurd (ground (arith, e))
    by_pack (some d) c e (Result.ok bytes) = returns (write_to-IsMembers b k d bytes h)

-- The total order is in a valid state.
abbrev pub AboveIsValid : {A : Type 0} → Above A → Type 0
AboveIsValid u = IsValid u.total

module _ {A : Type 0} (cs : Codecs) (app_run : Str → ToMsg → A → Run (A × Option Error)) (now : ℕ)
    (app_returns : (path : Str) (m : ToMsg) (a : A)
      → Returns (λ r. Unit {0}) (app_run path m a)) where
  -- The members are a map without nil, and the total order is in a valid state.
  abbrev KeptAbove : (BMulticast × Above A) × Option Error → Type 0
  KeptAbove x = IsMembers x.0.0.senders × IsValid x.0.1.total

  ask_handler-Kept :
      (m : RMsg) (b : BMulticast) (u : Above A)
      → IsMembers b.senders
      → IsValid u.total
      → Returns KeptAbove (ask_handler cs app_run now m b u)
  unfolding ask_handler
  ask_handler-Kept m b u map v = elim (Option-cases (decode_ask cs.ask m.body).1) [
    | inr (e, bad) ↦ rw (bad, ask_handler) (returns (map, v))
    | inl good ↦
        let ask = (decode_ask cs.ask m.body).0 in
        rw (good, ask_handler)
          (Returns-bind (ask_proposal_seq_correct u.total b.self_node_id ask v) λ r (valid, st).
            Returns-bind
              (unicast-IsMembers cs.b_msg cs.reply b ask.src_id wait_proposal_seq_path r.1 map)
              λ x members. returns (members, valid))
  ]

  announce_handler-Kept :
      (m : RMsg) (b : BMulticast) (u : Above A)
      → IsMembers b.senders
      → IsValid u.total
      → Returns KeptAbove (announce_handler cs app_run now m b u)
  unfolding announce_handler
  announce_handler-Kept m b u map v = elim (Option-cases (decode_announce cs.announce m.body).1) [
    | inr (e, bad) ↦ rw (bad, announce_handler) (returns (map, v))
    | inl good ↦
        let msg = (decode_announce cs.announce m.body).0 in
        rw (good, announce_handler)
          (Returns-bind
            (announce_agreement_seq_correct (decode_to_msg cs.to_msg) app_run (is_node_alived b) now
              app_returns u.total u.app msg v)
            λ r (valid, st). returns (map, valid))
  ]

  pub r_run-RunReturns : RunReturns cs.b_msg cs.r_msg (r_run cs app_run now) AboveIsValid
  unfolding r_run run
  r_run-RunReturns path m b u (map, v) = elim (Option-cases (lookup path r_router.routers)) [
    | inl missing ↦ rw (missing, r_run, run) (returns (map, v))
    | inr (h, found) ↦ rw (found, r_run, run) (by_handler h)
  ]
    where
      by_handler : (h : RHandler) → Returns KeptAbove (r_handle cs app_run now h m (b, u))
      by_handler asks_proposal = ask_handler-Kept m b u map v
      by_handler announces_agreement = announce_handler-Kept m b u map v
