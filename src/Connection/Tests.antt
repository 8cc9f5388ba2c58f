-- ===== src/Connection/Tests.antt =====
-- A client that connects to the node of Node/Tests after one failed attempt, and sends a request.
use cs425_mps.Base.{
  List, ℕ, Bool, true, false, Option, none, some, [], ◌∷◌, ◌++◌, ◌≡◌, refl, zero, suc, ◌==◌, All,
  not, ◌&&◌, arith,
}
use cs425_mps.Base.Int.{pos}
use cs425_mps.Base.Text.{codes}
use cs425_mps.Base.Run.{ok, ◌>>=◌, Returns}
use cs425_mps.Base.Result.{Error, Result, dial_failed, read_failed}
use cs425_mps.Codec.{Codec, Bytes, IsLossless}
use cs425_mps.Client.{TcpClient}
use cs425_mps.Metrics.{BandwidthLogEntry, new_metrics}
use cs425_mps.Handshake.{Hi, new_hi, encode_hi, hi_line, greet, new_tcp_client}
use cs425_mps.Retry.{retry_loop, gives_up}
use cs425_mps.Scanner.{scan_lines, scan_loop, drop_cr}
use cs425_mps.Scanner.Frames.{IsLine, frames}
use cs425_mps.Connection.{Server, handle_conn, run_server, ended}
use cs425_mps.Connection.Session.{
  connection_delivers, run_server-Returns, AllForeign, Foreign, after_first, handled, served,
}
use cs425_mps.Node.Frame.{ProcessIsValid}
use cs425_mps.Node.Tests.{
  codecs, count_one, count_one-Returns, node, node-ProcessIsValid, request, not_own,
}

abbrev hi_codec : Codec Hi
hi_codec = record { marshal = λ h. Result.ok h.from; unmarshal = λ b. (record { from = b }, none) }

hi_codec-IsLossless : IsLossless hi_codec
hi_codec-IsLossless = record { marshals = λ h. (h.from, refl); reads_back = λ h b e. ground arith }

abbrev entry_codec : Codec BandwidthLogEntry
entry_codec = record {
  marshal = λ e. Result.ok e.node_id;
  unmarshal = λ b. (record { node_id = b; timestamp = []; bytes_size = pos 0 }, none);
}

-- The first attempt to dial fails.
abbrev dials : ℕ → Option Error
dials zero = some dial_failed
dials (suc n) = none

abbrev client : TcpClient
client = record {
  src_id = codes "n2";
  dst_id = codes "n1";
  addr = codes "n1:1";
  connection = true ∷ [];
}

client_connects :
    new_tcp_client hi_codec 3 dials (true ∷ true ∷ []) (codes "n2") (codes "n1") (codes "n1:1")
    ≡ ok (Result.ok (client, codes "n2" ++ b'\n' ∷ []))
unfolding new_tcp_client retry_loop gives_up greet hi_line encode_hi new_hi
client_connects = refl

encoded : encode_hi hi_codec (new_hi (codes "n2")) ≡ Result.ok (codes "n2")
unfolding encode_hi new_hi
encoded = refl

abbrev plain : Bytes → Bool
plain [] = true
plain (c ∷ b) = not (c == b'\n') && plain b

plain→All : (b : Bytes) → plain b ≡ true → All (λ c. c == b'\n' ≡ false) b
plain→All [] h = tt
plain→All (c ∷ b) h = ground (arith, plain→All b)

name-IsLine : IsLine (codes "n2")
unfolding drop_cr
name-IsLine = record { one = plain→All (codes "n2") refl; bare = refl; short = omega arith }

request-IsLine : IsLine request
unfolding drop_cr
request-IsLine = record { one = plain→All request refl; bare = refl; short = omega arith }

abbrev server : Server ℕ
server = record { metrics = new_metrics; process = node }

connection_delivers_example :
    handle_conn codecs count_one 7 entry_codec
      (codes "n1")
      hi_codec
      2
      ((codes "n2" ++ b'\n' ∷ []) ++ frames (request ∷ []))
      server
    ≡ (handled codecs count_one 7 entry_codec (codes "n1") 2 (request ∷ []) node >>= λ p. ok (
      served codecs count_one 7 entry_codec (codes "n1") (request ∷ []) new_metrics p,
      ended (codes "n2") none,
    ))
connection_delivers_example =
    connection_delivers codecs count_one 7 entry_codec (codes "n1") hi_codec 2 3 dials
      (true ∷ true ∷ []) _ _ (codes "n1") (codes "n1:1") client _ _ (request ∷ []) server
      hi_codec-IsLossless client_connects encoded name-IsLine (request-IsLine, tt)

abbrev stream : Bytes
stream = (codes "n2" ++ b'\n' ∷ []) ++ frames (request ∷ [])

stream-Foreign : All (Foreign codecs) (after_first (scan_lines stream).0)
unfolding scan_lines scan_loop drop_cr
stream-Foreign = (not_own, tt)

-- The connection, one that could not be accepted, and one that does not greet.
abbrev accepts : List (Result Bytes)
accepts = Result.ok stream ∷ Result.err read_failed ∷ Result.ok (b'\n' ∷ []) ∷ []

accepts-AllForeign : AllForeign codecs accepts
unfolding scan_lines scan_loop drop_cr
accepts-AllForeign = (stream-Foreign, (tt, tt))

run_server-Returns_example :
    Returns
      (λ r. ProcessIsValid r.0.process)
      (run_server codecs count_one 7 entry_codec (codes "n1") hi_codec 2 accepts server)
run_server-Returns_example =
    run_server-Returns codecs count_one 7 entry_codec (codes "n1") count_one-Returns hi_codec
      accepts server node-ProcessIsValid accepts-AllForeign
