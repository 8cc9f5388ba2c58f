-- ===== src/Connection.antt =====
-- handleConn and runServer of lib/mp1/multicast/server.go: a connection of another node, from the
-- handshake to its end, and the loop that accepts connections. `stream` is all that the other node writes. Between two lines other connections may be served;
-- a state here is that of the node while it serves this one. That all clients are ready is waited for
-- in Startup.
pub mod Session
mod Tests
use cs425_mps.Base.{ℕ, Option, none, some, List, [], ◌∷◌, length}
use cs425_mps.Base.Int.{ℤ, pos}
use cs425_mps.Base.Text.{Str}
use cs425_mps.Base.Run.{Run, ok, ◌>>=◌}
use cs425_mps.Base.Result.{Error, Result}
use cs425_mps.Codec.{Codec, Bytes}
use cs425_mps.Message.{ToMsg}
use cs425_mps.Metrics.{Metrics, BandwidthLogEntry, new_bandwidth_log_entry, log_bandwidth}
use cs425_mps.Handshake.{Hi}
use cs425_mps.Scanner.{scan_lines}
use cs425_mps.Node.{Codecs, Process, handle_frame}

pub record Server (A : Type 0) : Type 0 where
  pub metrics : Metrics
  pub process : Process A

-- How a connection ends: at once, for want of a handshake, or with the input, and then with the node
-- that it names and the error of the scanner.
pub data Ending : Type 0 where
  refused : Ending
  ended : Str → Option Error → Ending

module _ {A : Type 0} (cs : Codecs) (app_run : Str → ToMsg → A → Run (A × Option Error)) (now : ℕ)
    (cm : Codec BandwidthLogEntry) (node_id : Str) where
  -- The body of the loop. Its errors are logged only.
  unfoldable pub serve_line : ℕ → Bytes → Server A → Run (Server A)
  serve_line fuel line s =
      let entry = new_bandwidth_log_entry (pos now) node_id (pos (length line)) in
      let measured = log_bandwidth cm entry s.metrics in
      do
        (p, failed) ← handle_frame cs app_run now fuel line s.process
        ok (record { metrics = measured; process = p })

  unfoldable pub serve_lines : ℕ → List Bytes → Server A → Run (Server A)
  serve_lines fuel [] s = ok s
  serve_lines fuel (line ∷ lines) s = serve_line fuel line s >>= serve_lines fuel lines

  -- What follows the handshake. A name that is empty is refused.
  unfoldable pub serve_node :
      ℕ → Str → List Bytes → Option Error → Server A → Run (Server A × Ending)
  serve_node fuel [] lines failed s = ok (s, refused)
  serve_node fuel (c ∷ from) lines failed s = do
    s' ← serve_lines fuel lines s
    ok (s', ended (c ∷ from) failed)

  -- The lines of a connection, from the first.
  unfoldable pub serve_session :
      Codec Hi → ℕ → List Bytes → Option Error → Server A → Run (Server A × Ending)
  serve_session ch fuel [] failed s = ok (s, ended [] failed)
  serve_session ch fuel (first_line ∷ rest) failed s =
      let (hi, bad) = ch.unmarshal first_line in
      elim bad [ some e ↦ ok (s, refused) | none ↦ serve_node fuel hi.from rest failed s ]

  unfoldable pub handle_conn : Codec Hi → ℕ → Bytes → Server A → Run (Server A × Ending)
  handle_conn ch fuel stream s =
      let (lines, failed) = scan_lines stream in serve_session ch fuel lines failed s

  -- The loop of runServer over what `Accept` gives: an error, or a connection with all that comes on it.
  -- The connections are served as if one after the other.
  unfoldable pub run_server :
      Codec Hi → ℕ → List (Result Bytes) → Server A → Run (Server A × List Ending)
  run_server ch fuel [] s = ok (s, [])
  run_server ch fuel (Result.err e ∷ accepts) s = run_server ch fuel accepts s
  run_server ch fuel (Result.ok stream ∷ accepts) s = do
    (s', ending) ← handle_conn ch fuel stream s
    (last, endings) ← run_server ch fuel accepts s'
    ok (last, ending ∷ endings)
