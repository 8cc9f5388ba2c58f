-- ===== src/LogServer.antt =====
-- cmd/mp0/server/root.go: the central logger. The floats of Go, the clock, json.Decoder and json.Marshal
-- are arguments: `decode` takes the message that the loop reuses and the input that is left.
pub mod Events
pub mod Start
mod Tests
use cs425_mps.Base.{
  ℕ, zero, suc, ◌+◌, Bool, true, false, Option, none, some, List, [], ◌∷◌, ◌++◌, ltb, if◌then◌else◌,
}
use cs425_mps.Base.Int.{pos}
use cs425_mps.Base.Text.{Str}
use cs425_mps.Base.Run.{Run, ok, out_of_fuel}
use cs425_mps.Base.Result.{Result}
use cs425_mps.Codec.{Codec, Bytes}
use cs425_mps.Strings.{format_int}
use cs425_mps.LogClient.{Msg}

pub record Params : Type 0 where
  pub delay : Str
  pub timestamp : Str
  pub size : Str

-- `len` of a string counts the bytes of its UTF-8.
unfoldable pub byte_length : Str → ℕ
byte_length [] = 0
byte_length (c ∷ s) =
    (if ltb c 0x80 then 1 else if ltb c 0x800 then 2 else if ltb c 0x10000 then 3 else 4)
    + byte_length s

-- Times are floats. `format_float` is strconv.FormatFloat with format E.
pub record Floats (F : Type 0) : Type 0 where
  pub parse_float : Str → Option F
  pub minus : F → F → F
  pub format_float : F → Str

-- What `Decode` does: a message and the input left, the end of the input, or an error.
pub data Decoded : Type 0 where
  decoded : Msg → Bytes → Decoded
  eof bad_input : Decoded

-- The lines of the output.
pub data Printed (F : Type 0) : Type 0 where
  connected disconnected : F → Str → Printed F
  event : F → Str → Str → Printed F

-- What one connection has printed and logged.
pub record Output (F : Type 0) : Type 0 where
  pub printed : List (Printed F)
  pub logged : List Bytes

-- `now i` is the i-th reading of the clock.
module _ {F : Type 0} (fl : Floats F) (cp : Codec Params) (decode : Msg → Bytes → Decoded)
    (now : ℕ → F) where
  unfoldable pub print : Printed F → Output F → Output F
  print l o = record o { printed = o.printed ++ l ∷ [] }

  -- The measurement of one message. One that does not parse or encode is skipped.
  unfoldable pub measure : F → Msg → Output F → Output F
  measure curr_timestamp msg o = elim (fl.parse_float msg.timestamp) [
    | none ↦ o
    | some time_send_float ↦
        let res : Params = record {
          delay = fl.format_float (fl.minus curr_timestamp time_send_float);
          timestamp = fl.format_float curr_timestamp;
          size = format_int (pos (byte_length msg.payload));
        } in
        elim (cp.marshal res) [
          | Result.err e ↦ o
          | Result.ok resbytes ↦ record o { logged = o.logged ++ resbytes ∷ [] }
        ]
  ]

  -- What is done with one message.
  unfoldable pub take_msg : F → Bool → F → Msg → Output F → Output F
  take_msg established is_first curr_timestamp msg o =
      let greeted = if is_first then print (connected established msg.from) o else o in
      measure curr_timestamp msg (print (event curr_timestamp msg.from msg.payload) greeted)

  -- The loop, with as many rounds as there is fuel. `msg` is reused, and `i` counts the readings of the
  -- clock.
  unfoldable pub request_loop : ℕ → F → Bool → Msg → ℕ → Bytes → Output F → Run (Output F)
  request_loop zero established is_first msg i input o = out_of_fuel
  request_loop (suc fuel) established is_first msg i input o = elim (decode msg input) [
    | eof ↦ ok (print (disconnected (now i) msg.from) o)
    | bad_input ↦ ok o
    | decoded next rest ↦
        request_loop fuel established false next (i + 1) rest
          (take_msg established is_first (now i) next o)
  ]

  unfoldable pub handle_request : ℕ → F → Bytes → Run (Output F)
  handle_request fuel established input =
      request_loop fuel established true (record { from = []; timestamp = []; payload = [] }) 0
        input (record { printed = []; logged = [] })
