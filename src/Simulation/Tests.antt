-- ===== src/Simulation/Tests.antt =====
-- Witnesses for the theorems on cli/r-multicast/main.go: three nodes, of which the second is the source.
use cs425_mps.Base.{
  ℕ, ◌+◌, ◌*◌, ◌%◌, ◌^◌, ◌≤◌, ◌<◌, Option, some, List, [], ◌∷◌, ◌≡◌, ◌⊎◌, refl, length, or_else,
  true,
}
use cs425_mps.Base.Int.{pos}
use cs425_mps.Base.Run.{Run, ok}
use cs425_mps.Simulation.{
  G, Action, sends, delivers, start, new_g, step, bm, send, add, batch, next_send, take_out,
  receive, bd, bma,
}
use cs425_mps.Base.Text.{str_eq}
use cs425_mps.Base.Dict.{lookup, insert}
use cs425_mps.Simulation.Counts.{arrows}
use cs425_mps.Simulation.Nodes.{seen}
use cs425_mps.Simulation.Invariant.{Runs, begin, and_then}
use cs425_mps.Simulation.Bounds.{message, main_bounded}
use cs425_mps.Simulation.Progress.{Possible, main_progresses}

abbrev started : Run (Option G) → G
started (ok (some g)) = g
started call = new_g 0

abbrev three : G
three = started (start (pos 3) (pos 1))

three_starts : start (pos 3) (pos 1) ≡ ok (some three)
unfolding start bm send add new_g
three_starts = refl

-- The source has sent to node 0, which relays.
abbrev first_send : G
first_send = or_else (step (sends 1 0) three) three

abbrev first_relay : G
first_relay = or_else (step (delivers 0 1) first_send) first_send

sent_first : step (sends 1 0) three ≡ some first_send
unfolding step start bm send add new_g batch next_send take_out
sent_first = refl

relayed_first : step (delivers 0 1) first_send ≡ some first_relay
unfolding step start bm send add new_g batch next_send take_out receive bd bma lookup insert str_eq
relayed_first = refl

abbrev schedule : List Action
schedule = delivers 0 1 ∷ sends 1 0 ∷ []

run_of_three : Runs three schedule first_relay
run_of_three = and_then _ (and_then _ begin sent_first) relayed_first

main_bounded_example :
    (2 * length (arrows first_relay.lines) ≤ 3 * 3 + 3)
    × (length schedule < 3 * 3 + 3)
    × (first_relay.counter ≡ length (arrows first_relay.lines) % 2 ^ 32)
    × ((i j : ℕ) → length ((first_relay.nodes i).out j) ≤ 2)
main_bounded_example = main_bounded 3 1 three first_relay schedule three_starts run_of_three

main_progresses_example :
    Possible first_relay ⊎ ((j : ℕ) → j < 3 → seen message (first_relay.nodes j) ≡ true)
main_progresses_example = main_progresses 3 1 three first_relay schedule three_starts run_of_three
