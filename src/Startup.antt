-- ===== src/Startup.antt =====
-- The start of a node: Start, startServer, startClients and startClient of
-- lib/mp1/multicast/b_multicast.go. The server and the clients start at the same time, so the turns of
-- the two come in any order. `connect` is NewTCPClient for a member of the group, which tries until it
-- can dial, and `listen` is the error of net.Listen. Each connection that is accepted waits in
-- handleConn until the counter of the wait group is 0.
pub mod Order
mod Tests
use cs425_mps.Base.{ℕ, zero, suc, ◌+◌, Bool, true, false, Option, none, some, List, [], ◌∷◌, length}
use cs425_mps.Base.Text.{Str}
use cs425_mps.Base.Dict.{Dict, insert}
use cs425_mps.Base.Run.{Run, ok, panic, ◌>>=◌}
use cs425_mps.Base.Result.{Error, Result}
use cs425_mps.Client.{TcpClient}
use cs425_mps.Group.{Node}

-- `adds_left` is what the loop of startServer has left, and `left` the members that startClients has
-- left. A client that is nil is none. `first_error` is the error that the error group keeps.
pub record Startup : Type 0 where
  pub adds_left : ℕ
  pub listening : Bool
  pub counter : ℕ
  pub left : List Node
  pub gave_up : Bool
  pub joined : Dict (Option TcpClient)
  pub first_error : Option Error

unfoldable pub start_group : List Node → Startup
start_group members = record {
  adds_left = length members;
  listening = false;
  counter = 0;
  left = members;
  gave_up = false;
  joined = [];
  first_error = none;
}

-- The error group keeps the first error.
abbrev pub keep_first : Option Error → Option Error → Option Error
keep_first none e = e
keep_first (some d) e = some d

unfoldable pub start_server : Option Error → Startup → Startup
start_server listen s = elim s.adds_left [
  | suc n ↦ record s { adds_left = n; counter = s.counter + 1 }
  | zero ↦ elim listen [
    | none ↦ record s { listening = true }
    | some e ↦ record s { first_error = keep_first s.first_error (some e) }
  ]
]

abbrev pub client_of : Result TcpClient → Option TcpClient
client_of (Result.ok c) = some c
client_of (Result.err e) = none

abbrev pub error_of : Result TcpClient → Option Error
error_of (Result.ok c) = none
error_of (Result.err e) = some e

abbrev pub is_error : Option Error → Bool
is_error none = false
is_error (some e) = true

-- `Done` panics where the counter is 0.
unfoldable pub done : Startup → Run Startup
done s = elim s.counter [ zero ↦ panic | suc n ↦ ok (record s { counter = n }) ]

-- The client joins the group before its error is looked at.
unfoldable pub start_client :
    (Node → Result TcpClient) → Node → Startup → Run (Startup × Option Error)
start_client connect m s =
    let client = connect m in
    do
      s' ← done (record s { joined = insert m.id (client_of client) s.joined })
      ok (s', error_of client)

-- One turn of the loop over the members. An error ends it.
unfoldable pub start_clients : (Node → Result TcpClient) → Startup → Run Startup
start_clients connect s = elim s.gave_up [
  | true ↦ ok s
  | false ↦ elim s.left [
    | [] ↦ ok s
    | m ∷ ms ↦ do
      (s', failed) ← start_client connect m (record s { left = ms })
      ok (record s' { gave_up = is_error failed; first_error = keep_first s'.first_error failed })
  ]
]

pub data Turn : Type 0 where
  server client : Turn

unfoldable pub take_turn : (Node → Result TcpClient) → Option Error → Turn → Startup → Run Startup
take_turn connect listen server s = ok (start_server listen s)
take_turn connect listen client s = start_clients connect s

unfoldable pub take_turns :
    (Node → Result TcpClient) → Option Error → List Turn → Startup → Run Startup
take_turns connect listen [] s = ok s
take_turns connect listen (t ∷ ts) s = take_turn connect listen t s >>= take_turns connect listen ts
