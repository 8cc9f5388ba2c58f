-- ===== src/Handshake.antt =====
-- lib/mp1/types/msg.go, with NewTCPClient of lib/mp1/multicast/client.go: the first line of a
-- connection. What the network does is an argument: how each attempt to dial ends, and the outcomes of
-- the writes to the connection that is dialled in the end.
use cs425_mps.Base.{ℕ, Bool, true, false, Option, none, some, List, [], ◌∷◌}
use cs425_mps.Base.Int.{pos}
use cs425_mps.Base.Text.{Str}
use cs425_mps.Base.Run.{Run, ok, ◌>>=◌}
use cs425_mps.Base.Result.{Error, Result, send_failed}
use cs425_mps.Codec.{Codec, Bytes}
use cs425_mps.Client.{TcpClient, frame}
use cs425_mps.Retry.{retry}

pub record Hi : Type 0 where
  pub from : Str

unfoldable pub new_hi : Str → Hi
new_hi from = record { from = from }

unfoldable pub encode_hi : Codec Hi → Hi → Result Bytes
encode_hi c h = c.marshal h

-- The error of `Encode` is not looked at; the bytes are then empty.
unfoldable pub hi_line : Codec Hi → Str → Bytes
hi_line c src_id = elim (encode_hi c (new_hi src_id)) [
  | Result.ok hi ↦ frame hi
  | Result.err e ↦ frame []
]

-- The client, and what was written to the connection.
unfoldable pub greet : Codec Hi → Str → Str → Str → List Bool → Result (TcpClient × Bytes)
greet c src_id dst_id addr [] = Result.err send_failed
greet c src_id dst_id addr (false ∷ writes) = Result.err send_failed
greet c src_id dst_id addr (true ∷ writes) = Result.ok (
  record { src_id = src_id; dst_id = dst_id; addr = addr; connection = writes },
  hi_line c src_id,
)

unfoldable pub new_tcp_client :
    Codec Hi
    → ℕ
    → (ℕ → Option Error)
    → List Bool
    → Str
    → Str
    → Str
    → Run (Result (TcpClient × Bytes))
new_tcp_client c fuel dial writes src_id dst_id addr = do
  (failed, calls) ← retry fuel (pos 0) dial
  ok (elim failed [ some e ↦ Result.err e | none ↦ greet c src_id dst_id addr writes ])
