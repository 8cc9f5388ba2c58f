-- ===== src/Startup/Tests.antt =====
-- A start with two members, of which the second cannot be greeted, and one in which a client is ready
-- before the server counted it.
use cs425_mps.Base.{none, List, [], ◌∷◌, ◌++◌, ◌≡◌, ◌⊎◌, refl, if◌then◌else◌}
use cs425_mps.Base.Text.{codes, str_eq}
use cs425_mps.Base.Run.{ok, panic}
use cs425_mps.Base.Result.{Result, send_failed}
use cs425_mps.Client.{TcpClient}
use cs425_mps.Group.{Node}
use cs425_mps.Startup.{
  Startup, start_group, done, start_client, start_clients, Turn, server, client, take_turn,
  take_turns,
}
use cs425_mps.Startup.Order.{Counts, Ahead, startup_correct}

abbrev members : List Node
members =
    record { id = codes "n2"; addr = codes "n2:1" }
    ∷ record { id = codes "n3"; addr = codes "n3:1" }
    ∷ []

abbrev connect : Node → Result TcpClient
unfolding str_eq
connect m =
    if str_eq m.id (codes "n3")
    then Result.err send_failed
    else Result.ok (record { src_id = codes "n1"; dst_id = m.id; addr = m.addr; connection = [] })

abbrev in_order : List Turn
in_order = server ∷ client ∷ server ∷ server ∷ client ∷ client ∷ []

startup_correct_example :
    ((s : Startup) × (take_turns connect none in_order (start_group members) ≡ ok s)
      × Counts connect none members s)
    ⊎ ((before : List Turn) × (after : List Turn) × (s : Startup) × (in_order
          ≡ before ++ client ∷ after)
        × (take_turns connect none before (start_group members) ≡ ok s)
        × Ahead connect none s
        × (take_turns connect none in_order (start_group members) ≡ panic))
startup_correct_example = startup_correct connect none members in_order

too_early : take_turns connect none (client ∷ in_order) (start_group members) ≡ panic
unfolding take_turns take_turn start_clients start_client done start_group
too_early = refl
