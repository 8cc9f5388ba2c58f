-- ===== src/Command.antt =====
-- cmd/mp1/root.go: the main function of a node. The configuration, the error of the start of the group,
-- the lines of the input and the uuids are arguments; `start` gives the reliable multicast of the group
-- once that is started with the handlers of the processor. How the total order multicasts is in Node.
pub mod Request
pub mod Events
pub mod Arrival
mod Tests
use cs425_mps.Base.{ℕ, ◌+◌, Option, none, some, List, [], ◌∷◌}
use cs425_mps.Base.Text.{Str}
use cs425_mps.Base.Run.{Run}
use cs425_mps.Base.Run
use cs425_mps.Base.Result.{Error, Result, ok, err}
use cs425_mps.Codec.{Codec, Bytes}
use cs425_mps.Router.{Msg, Router, new}
use cs425_mps.Processor.{Processor, Handler, new_processor, registe_transaction_handler}
use cs425_mps.Event.{Event}
use cs425_mps.Listener.{transaction_event_listener}
use cs425_mps.Metrics.{Metrics, setup_metrics}
use cs425_mps.Group.{Group}
use cs425_mps.Config.{ConfigItem, construct_group}
use cs425_mps.RMulticast.{RMulticast}
use cs425_mps.Node.{Codecs, to_multicast}

-- The two identifiers that a multicast draws.
pub record Uuids : Type 0 where
  pub total : ℕ → Str
  pub reliable : ℕ → Str

module _ (cs : Codecs) (cv : Codec Event) (sum : Bytes → Bytes) (uuids : Uuids) where
  -- The goroutine that multicasts the events; `i` counts them. An error is logged, and the loop goes on.
  unfoldable pub multicast_events :
      ℕ → RMulticast → List (Msg Event) → Run (RMulticast × List Error)
  multicast_events i r [] = Run.ok (r, [])
  multicast_events i r (msg ∷ msgs) =
      Run.◌>>=◌ (to_multicast cs cv sum (uuids.total i) (uuids.reliable i) r msg.path msg.body) λ x.
        Run.◌>>=◌ (multicast_events (i + 1) x.0 msgs) λ (last, errors).
          Run.ok (elim x.1 [ none ↦ (last, errors) | some e ↦ (last, e ∷ errors) ])

  unfoldable pub root_cmd_main :
      Str
      → Metrics
      → Str
      → Str
      → Result (List ConfigItem)
      → (Group → Router Handler → Processor → Result RMulticast)
      → List Str
      → Run (Metrics × Result (RMulticast × List Error))
  root_cmd_main metrics_env metrics node_id node_port parsed start lines =
      let measured = setup_metrics metrics_env metrics in
      elim (construct_group node_id node_port parsed) [
        | err e ↦ Run.ok (measured, err e)
        | ok group ↦ elim (start group (registe_transaction_handler new) new_processor) [
          | err e ↦ Run.ok (measured, err e)
          | ok layers ↦
              Run.◌>>=◌ (multicast_events 0 layers (transaction_event_listener lines))
                λ x. Run.ok (measured, ok x)
        ]
      ]

-- The exit code, where the process exits.
unfoldable pub exit_wrapper : Option Error → Option ℕ
exit_wrapper none = none
exit_wrapper (some e) = some 1
