-- ===== src/Event/Tests.antt =====
-- A line of the README's input.
use cs425_mps.Base.{arith}
use cs425_mps.Base.Int.{pos}
use cs425_mps.Base.Text.{Str, codes}
use cs425_mps.Router.{new_msg}
use cs425_mps.Strings.{is_space, fields}
use cs425_mps.Strings.Number.{IsWord}
use cs425_mps.Event.{deposits, deposit_path}
use cs425_mps.Event.Parse.{Accepts, deposit_line, parse_deposit, parse-Accepts}

abbrev abc : Str
abc = codes "abc"

abc-IsWord : IsWord abc
unfolding is_space
abc-IsWord = ground arith

parse-Accepts_example :
    Accepts
      (fields (deposit_line abc (pos 100)))
      (new_msg deposit_path (deposits (record { account = abc; amount = pos 100 })))
parse-Accepts_example =
    parse-Accepts (deposit_line abc (pos 100))
      (new_msg deposit_path (deposits (record { account = abc; amount = pos 100 })))
      (parse_deposit abc (pos 100) abc-IsWord (λ e. ground (arith, e)) (omega arith))
