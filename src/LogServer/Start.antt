-- ===== src/LogServer/Start.antt =====
-- cmd/mp0/server/root.go: the arguments of the central logger, and the loop that accepts connections.
-- `listen` is what net.Listen returns for an address, and `accepts` what `Accept` gives: an error, or a
-- connection with its input. The connections are independent of each other.
use cs425_mps.Base.{ℕ, ◌+◌, Option, none, some, List, [], ◌∷◌, if◌then◌else◌}
use cs425_mps.Base.Int.{ℤ, is_negative}
use cs425_mps.Base.Text.{Str, codes}
use cs425_mps.Base.Run.{Run, ok, ◌>>=◌}
use cs425_mps.Base.Result.{Error, Result, bad_port, bad_args}
use cs425_mps.Codec.{Codec, Bytes}
use cs425_mps.Strings.{atoi}
use cs425_mps.Config.{join_host_port}
use cs425_mps.LogClient.{Msg}
use cs425_mps.LogServer.{Params, Floats, Decoded, Output, handle_request}

-- `strconv.Atoi` and a test of the sign.
unfoldable pub parse_port : Str → Result ℤ
parse_port port_raw_str = elim (atoi port_raw_str) [
  | Result.err e ↦ Result.err bad_port
  | Result.ok port ↦ if is_negative port then Result.err bad_port else Result.ok port
]

-- One argument, a port.
unfoldable pub check_args : List Str → Option Error
check_args (port_raw_str ∷ []) = elim (parse_port port_raw_str) [
  | Result.err e ↦ some e
  | Result.ok port ↦ none
]
check_args args = some bad_args

module _ {F : Type 0} (fl : Floats F) (cp : Codec Params) (decode : Msg → Bytes → Decoded) where
  -- `clocks k` are the readings of the clock from the k-th accept on, the first one that of the accept.
  unfoldable pub accept_loop : ℕ → ℕ → (ℕ → ℕ → F) → List (Result Bytes) → Run (List (Output F))
  accept_loop fuel k clocks [] = ok []
  accept_loop fuel k clocks (Result.err e ∷ accepts) = accept_loop fuel (k + 1) clocks accepts
  accept_loop fuel k clocks (Result.ok input ∷ accepts) = do
    output ← handle_request fl cp decode (λ i. clocks k (i + 1)) fuel (clocks k 0) input
    outputs ← accept_loop fuel (k + 1) clocks accepts
    ok (output ∷ outputs)

  unfoldable pub tcp_to_math :
      (Str → Option Error)
      → ℕ
      → (ℕ → ℕ → F)
      → Str
      → List (Result Bytes)
      → Run (List (Output F) × Option Error)
  tcp_to_math listen fuel clocks port_str accepts =
      elim (listen (join_host_port (codes "0.0.0.0") port_str)) [
        | some e ↦ ok ([], some e)
        | none ↦ do outputs ← accept_loop fuel 0 clocks accepts; ok (outputs, none)
      ]

  -- The command: the arguments are checked, and then it runs.
  unfoldable pub run_command :
      (Str → Option Error)
      → ℕ
      → (ℕ → ℕ → F)
      → List Str
      → List (Result Bytes)
      → Run (List (Output F) × Option Error)
  run_command listen fuel clocks [] accepts = ok ([], check_args [])
  run_command listen fuel clocks (port_raw_str ∷ args) accepts =
      elim (check_args (port_raw_str ∷ args)) [
        | some e ↦ ok ([], some e)
        | none ↦ tcp_to_math listen fuel clocks port_raw_str accepts
      ]
