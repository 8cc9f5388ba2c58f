-- ===== src/Client.antt =====
-- lib/mp1/multicast/client.go: a connection to one member. What the network does with each write is an
-- argument of the model: `connection` holds the outcomes of the writes to come, and a connection with
-- none left is lost.
use cs425_mps.Base.{Bool, true, false, Option, none, some, List, [], ◌∷◌, ◌++◌}
use cs425_mps.Base.Text.{Str}
use cs425_mps.Base.Result.{Error, send_failed}
use cs425_mps.Codec.{Bytes}

pub record TcpClient : Type 0 where
  pub src_id : Str
  pub dst_id : Str
  pub addr : Str
  pub connection : List Bool

-- A copy of the message, with the newline that ends a frame.
abbrev pub frame : Bytes → Bytes
frame msg = msg ++ b'\n' ∷ []

-- The client after the write, and the error of the write.
unfoldable pub send : TcpClient → Bytes → TcpClient × Option Error
send c msg = elim c.connection [
  | [] ↦ (c, some send_failed)
  | written ∷ rest ↦ elim written [
    | true ↦ (record c { connection = rest }, none)
    | false ↦ (record c { connection = rest }, some send_failed)
  ]
]
