-- ===== src/Connection/Session.antt =====
-- What NewTCPClient and Send of lib/mp1/multicast/client.go write, as handleConn of server.go reads it,
-- and what else may come on a connection.
use cs425_mps.Base.{
  length, ℕ, Option, none, List, [], ◌∷◌, ◌++◌, ◌≡◌, ◌≢◌, refl, ap, ◌∙◌, All, Bool, true, false,
  arith, Option-cases, inl, inr,
}
use cs425_mps.Base.Int.{pos}
use cs425_mps.Retry.{retry}
use cs425_mps.Base.Text.{Str}
use cs425_mps.Base.Run.{Run, ok, panic, out_of_fuel, ◌>>=◌, bind-ok, Returns, returns, Returns-bind}
use cs425_mps.Base.Result.{Error, Result}
use cs425_mps.Codec.{Codec, Bytes, IsLossless}
use cs425_mps.Client.{TcpClient, frame}
use cs425_mps.Message.{ToMsg, decode_b_msg}
use cs425_mps.BMulticast.{b_multicast_path}
use cs425_mps.Metrics.{Metrics, BandwidthLogEntry, new_bandwidth_log_entry, log_bandwidth}
use cs425_mps.Handshake.{Hi, new_hi, encode_hi, hi_line, greet, new_tcp_client}
use cs425_mps.Scanner.{scan_lines}
use cs425_mps.Scanner.Frames.{IsLine, frames, scan_lines-frames}
use cs425_mps.Node.{Codecs, Process, handle_frame}
use cs425_mps.Node.Frame.{ProcessIsValid, frame-Returns}
use cs425_mps.Connection.{
  Server, Ending, ended, serve_line, serve_lines, serve_node, serve_session, handle_conn,
  run_server,
}

-- The lines after the handshake.
abbrev pub after_first : List Bytes → List Bytes
after_first [] = []
after_first (first_line ∷ rest) = rest

-- A line whose message does not have the path of the basic multicast.
abbrev pub Foreign : Codecs → Bytes → Type 0
Foreign cs line = (decode_b_msg cs.b_msg line).0.path ≢ b_multicast_path

-- The connections among what `Accept` gives, each with such lines after its first.
abbrev pub AllForeign : Codecs → List (Result Bytes) → Type 0
AllForeign cs [] = Unit
AllForeign cs (Result.err e ∷ accepts) = AllForeign cs accepts
AllForeign cs (Result.ok stream ∷ accepts) =
    All (Foreign cs) (after_first (scan_lines stream).0) × AllForeign cs accepts

module _ (ch : Codec Hi) (src_id dst_id addr : Str) where
  greet-wrote :
      (writes : List Bool) (client : TcpClient) (written : Bytes)
      → greet ch src_id dst_id addr writes ≡ Result.ok (client, written)
      → written ≡ hi_line ch src_id
  unfolding greet
  greet-wrote [] client written e = absurd (ground arith)
  greet-wrote (false ∷ writes) client written e = absurd (ground arith)
  greet-wrote (true ∷ writes) client written e = ground arith

  -- A client that is ready wrote the handshake.
  new_tcp_client-wrote :
      (fuel : ℕ) (dial : ℕ → Option Error) (writes : List Bool) (client : TcpClient)
      (written : Bytes)
      → new_tcp_client ch fuel dial writes src_id dst_id addr ≡ ok (Result.ok (client, written))
      → written ≡ hi_line ch src_id
  unfolding new_tcp_client
  new_tcp_client-wrote fuel dial writes client written e =
      let ((failed, calls), ended_so, rest) =
        bind-ok (retry fuel (pos 0) dial) _ (Result.ok (client, written)) e in
      elim (Option-cases failed) [
        | inl connected ↦ greet-wrote writes client written (ground arith)
        | inr (x, lost) ↦ absurd (ground arith)
      ]

module _ {A : Type 0} (cs : Codecs) (app_run : Str → ToMsg → A → Run (A × Option Error)) (now : ℕ)
    (cm : Codec BandwidthLogEntry) (node_id : Str) where
  -- The messages handled one after the other, each on what the one before leaves.
  abbrev pub handled : ℕ → List Bytes → Process A → Run (Process A)
  handled fuel [] p = ok p
  handled fuel (m ∷ ms) p = handle_frame cs app_run now fuel m p >>= λ r. handled fuel ms r.0

  -- Each message measured.
  abbrev pub measured : List Bytes → Metrics → Metrics
  measured [] metrics = metrics
  measured (m ∷ ms) metrics =
      measured ms
        (log_bandwidth cm (new_bandwidth_log_entry (pos now) node_id (pos (length m))) metrics)

  -- The server, once the messages are handled.
  abbrev pub served : List Bytes → Metrics → Process A → Server A
  served ms metrics p = record { metrics = measured ms metrics; process = p }

  abbrev after_line : Bytes → Metrics → Metrics
  after_line line metrics =
      log_bandwidth cm (new_bandwidth_log_entry (pos now) node_id (pos (length line))) metrics

  serve_lines-one :
      (fuel : ℕ) (lines : List Bytes) (metrics : Metrics)
      → ((p : Process A)
          → serve_lines cs app_run now cm node_id fuel lines
              (record { metrics = metrics; process = p })
            ≡ (handled fuel lines p >>= λ q. ok (served lines metrics q)))
      → (call : Run (Process A × Option Error))
      → ((call >>= λ r. ok (served [] metrics r.0))
          >>= serve_lines cs app_run now cm node_id fuel lines)
        ≡ ((call >>= λ r. handled fuel lines r.0) >>= λ q. ok (served lines metrics q))
  serve_lines-one fuel lines metrics rest (ok r) = rest r.0
  serve_lines-one fuel lines metrics rest panic = refl
  serve_lines-one fuel lines metrics rest out_of_fuel = refl

  serve_lines-handled :
      (fuel : ℕ) (lines : List Bytes) (metrics : Metrics) (p : Process A)
      → serve_lines cs app_run now cm node_id fuel lines (record { metrics = metrics; process = p })
        ≡ (handled fuel lines p >>= λ q. ok (served lines metrics q))
  unfolding serve_lines serve_line
  serve_lines-handled fuel [] metrics p = refl
  serve_lines-handled fuel (line ∷ lines) metrics p =
      serve_lines-one fuel lines (after_line line metrics)
        (serve_lines-handled fuel lines (after_line line metrics))
        (handle_frame cs app_run now fuel line p)

  abbrev end_so : Ending → Server A → Run (Server A × Ending)
  end_so ending s = ok (s, ending)

  ended-served :
      (ms : List Bytes) (metrics : Metrics) (ending : Ending) (call : Run (Process A))
      → ((call >>= λ p. ok (served ms metrics p)) >>= end_so ending)
        ≡ (call >>= λ p. end_so ending (served ms metrics p))
  ended-served ms metrics ending (ok p) = refl
  ended-served ms metrics ending panic = refl
  ended-served ms metrics ending out_of_fuel = refl

  -- If a client has connected to a node, from a name that is not empty, and then sends messages,
  -- then the node accepts the connection, measures each of these messages and handles it as a
  -- frame, one after the other and no other, with whatever outcome that has, and the connection
  -- ends at the end of the input. JSON reads back the handshake, and each message is one line that
  -- the scanner takes.
  pub connection_delivers :
      (ch : Codec Hi) (fuel dials : ℕ) (dial : ℕ → Option Error) (writes : List Bool) (c : ℕ)
      (src_id dst_id addr : Str) (client : TcpClient) (written hi : Bytes) (msgs : List Bytes)
      (s : Server A)
      → IsLossless ch
      → new_tcp_client ch dials dial writes (c ∷ src_id) dst_id addr
        ≡ ok (Result.ok (client, written))
      → encode_hi ch (new_hi (c ∷ src_id)) ≡ Result.ok hi
      → IsLine hi
      → All IsLine msgs
      → handle_conn cs app_run now cm node_id ch fuel (written ++ frames msgs) s ≡ (
          handled fuel msgs s.process >>= λ p.
          ok (served msgs s.metrics p, ended (c ∷ src_id) none))
  unfolding handle_conn serve_session serve_node encode_hi hi_line new_hi
  connection_delivers ch fuel dials dial writes c src_id dst_id addr client written hi msgs s
        lossless dialled encoded line lines =
      let wrote : written ≡ frame hi =
        new_tcp_client-wrote ch (c ∷ src_id) dst_id addr dials dial writes client written dialled
        ∙ ground arith in
      let scanned : scan_lines (written ++ frames msgs) ≡ (hi ∷ msgs, none) =
        ap (λ b. scan_lines (b ++ frames msgs)) wrote
        ∙ scan_lines-frames (hi ∷ msgs) (line, lines) in
      let known : ch.unmarshal hi ≡ (new_hi (c ∷ src_id), none) =
        lossless.reads_back _ hi encoded in
      rw (scanned, serve_session, known, known, serve_node)
        (ap (λ call. call >>= end_so (ended (c ∷ src_id) none))
            (serve_lines-handled fuel msgs s.metrics s.process)
          ∙ ended-served msgs s.metrics (ended (c ∷ src_id) none) (handled fuel msgs s.process))

  module _
      (app_returns : (path : Str) (m : ToMsg) (a : A)
        → Returns (λ r. Unit {0}) (app_run path m a)) where
    serve_lines-Returns :
        (lines : List Bytes) (s : Server A)
        → ProcessIsValid s.process
        → All (Foreign cs) lines
        → Returns
            (λ s'. ProcessIsValid s'.process)
            (serve_lines cs app_run now cm node_id 2 lines s)
    unfolding serve_lines serve_line
    serve_lines-Returns [] s v ne = returns v
    serve_lines-Returns (line ∷ lines) s v ne =
        Returns-bind
          (Returns-bind (frame-Returns cs app_run now app_returns line s.process v ne.0)
            (λ r w. returns w))
          (λ s' w. serve_lines-Returns lines s' w ne.1)

    serve_node-Returns :
        (from : Str) (lines : List Bytes) (failed : Option Error) (s : Server A)
        → ProcessIsValid s.process
        → All (Foreign cs) lines
        → Returns
            (λ r. ProcessIsValid r.0.process)
            (serve_node cs app_run now cm node_id 2 from lines failed s)
    unfolding serve_node
    serve_node-Returns [] lines failed s v ne = returns v
    serve_node-Returns (c ∷ from) lines failed s v ne =
        Returns-bind (serve_lines-Returns lines s v ne) (λ s' w. returns w)

    serve_session-Returns :
        (ch : Codec Hi) (lines : List Bytes) (failed : Option Error) (s : Server A)
        → ProcessIsValid s.process
        → All (Foreign cs) (after_first lines)
        → Returns
            (λ r. ProcessIsValid r.0.process)
            (serve_session cs app_run now cm node_id ch 2 lines failed s)
    unfolding serve_session
    serve_session-Returns ch [] failed s v ne = returns v
    serve_session-Returns ch (first_line ∷ rest) failed s v ne =
        elim (Option-cases (ch.unmarshal first_line).1) [
          | inl good ↦
              rw (good, serve_session)
                (serve_node-Returns (ch.unmarshal first_line).0.from rest failed s v ne)
          | inr (e, bad) ↦ rw (bad, serve_session) (returns v)
        ]

    -- In a node whose members are a map without a nil client, whose reliable multicast handed on
    -- no message twice and whose total order is valid, with an application that returns, a
    -- connection with whatever bytes is served to its end without a panic and leaves the node so,
    -- if no line after the first has a message with the path of the basic multicast.
    pub handle_conn-Returns :
        (ch : Codec Hi) (stream : Bytes) (s : Server A)
        → ProcessIsValid s.process
        → All (Foreign cs) (after_first (scan_lines stream).0)
        → Returns
            (λ r. ProcessIsValid r.0.process)
            (handle_conn cs app_run now cm node_id ch 2 stream s)
    unfolding handle_conn
    handle_conn-Returns ch stream s v ne =
        serve_session-Returns ch (scan_lines stream).0 (scan_lines stream).1 s v ne

    -- In a node whose members are a map without a nil client, whose reliable multicast handed on
    -- no message twice and whose total order is valid, with an application that returns, the
    -- server serves any connections with whatever bytes, one after the other, and errors of Accept
    -- among them, without a panic and leaves the node so, if no line after the first of a
    -- connection has a message with the path of the basic multicast.
    pub run_server-Returns :
        (ch : Codec Hi) (accepts : List (Result Bytes)) (s : Server A)
        → ProcessIsValid s.process
        → AllForeign cs accepts
        → Returns
            (λ r. ProcessIsValid r.0.process)
            (run_server cs app_run now cm node_id ch 2 accepts s)
    unfolding run_server
    run_server-Returns ch [] s v ne = returns v
    run_server-Returns ch (Result.err e ∷ accepts) s v ne = run_server-Returns ch accepts s v ne
    run_server-Returns ch (Result.ok stream ∷ accepts) s v ne =
        Returns-bind (handle_conn-Returns ch stream s v ne.0)
          λ r w. Returns-bind (run_server-Returns ch accepts r.0 w ne.1) λ q x. returns x
