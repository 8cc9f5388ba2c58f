-- ===== src/LogClient.antt =====
-- cmd/mp0/client/root.go, with the messages of lib/mp0/types/msg.go: the events of the standard input,
-- sent to the central logger. How the dial ends, the lines that the scanner gives, and the outcomes of
-- the writes to the connection are arguments. The error of the scanner is not looked at.
use cs425_mps.Base.{Bool, true, false, Option, none, some, List, [], ◌∷◌, ◌++◌}
use cs425_mps.Base.Text.{Str}
use cs425_mps.Base.Result.{Error, ok, err, send_failed}
use cs425_mps.Codec.{Codec, Bytes}
use cs425_mps.Client.{frame}
use cs425_mps.Strings.{fields}

pub record Msg : Type 0 where
  pub from : Str
  pub timestamp : Str
  pub payload : Str

-- The message of a line with two fields.
unfoldable pub line_msg : Str → List Str → Option Msg
line_msg name (timestamp ∷ payload ∷ []) =
    some record { from = name; timestamp = timestamp; payload = payload }
line_msg name tmp = none

-- A write of the encoder: the message with a newline. The outcomes that are left come with it.
unfoldable pub encode : List Bool → Bytes → Option (List Bool)
encode [] msgbytes = none
encode (false ∷ writes) msgbytes = none
encode (true ∷ writes) msgbytes = some writes

-- The loop over the lines. `written` is what the connection took, and the error is the one returned.
unfoldable pub copy_loop : Codec Msg → Str → List Bool → List Str → Bytes → Bytes × Option Error
copy_loop c name writes [] written = (written, none)
copy_loop c name writes (line ∷ lines) written =
    let skipped = copy_loop c name writes lines written in
    elim (line_msg name (fields line)) [
      | none ↦ skipped
      | some msg ↦ elim (c.marshal msg) [
        | err e ↦ (written, some e)
        | ok msgbytes ↦ elim (encode writes msgbytes) [
          | none ↦ (written, some send_failed)
          | some rest ↦ copy_loop c name rest lines (written ++ frame msgbytes)
        ]
      ]
    ]

unfoldable pub copy_stdin_to_tcp :
    Codec Msg → Option Error → List Bool → Str → List Str → Bytes × Option Error
copy_stdin_to_tcp c failed writes name lines = elim failed [
  | some e ↦ ([], some e)
  | none ↦ copy_loop c name writes lines []
]
