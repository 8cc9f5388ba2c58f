-- ===== src/Startup/Order.antt =====
-- What the order of the turns of lib/mp1/multicast/b_multicast.go comes to when a node starts.
use cs425_mps.Base.{
  ℕ, zero, suc, ◌+◌, ◌≤◌, Option, List, [], ◌∷◌, ◌++◌, length, ◌≡◌, refl, sym, ap, ◌∙◌, ◌⊎◌, inl,
  inr, List-cases, Option-cases, Bool-cases, arith,
}
use mathlib.Core.List.{append_assoc}
use cs425_mps.Base.Dict.{Dict, insert}
use cs425_mps.Base.Run.{ok, panic}
use cs425_mps.Base.Result.{Error, Result}
use cs425_mps.Client.{TcpClient}
use cs425_mps.Group.{Node}
use cs425_mps.Startup.{
  Startup, start_group, start_server, client_of, error_of, is_error, keep_first, done, start_client,
  start_clients, Turn, server, client, take_turn, take_turns,
}

module _ (connect : Node → Result TcpClient) (listen : Option Error) where
  -- The members after the clients were made, one by one.
  abbrev pub join : List Node → Dict (Option TcpClient) → Dict (Option TcpClient)
  join [] d = d
  join (m ∷ ms) d = join ms (insert m.id (client_of (connect m)) d)

  pub record Counts (members : List Node) (s : Startup) : Type 0 where
    pub balance : s.counter + s.adds_left ≡ length s.left
    pub made : List Node
    pub parts : made ++ s.left ≡ members
    pub members_joined : s.joined ≡ join made []

  -- Clients ran ahead of the server: the counter is 0, and adds are left to be made.
  abbrev pub Ahead : Startup → Type 0
  Ahead s = (s.counter ≡ 0) × (1 ≤ s.adds_left)

  join-snoc :
      (ms : List Node) (m : Node) (d : Dict (Option TcpClient))
      → join (ms ++ m ∷ []) d ≡ insert m.id (client_of (connect m)) (join ms d)
  join-snoc [] m d = refl
  join-snoc (n ∷ ms) m d = join-snoc ms m _

  ℕ-cases : (n : ℕ) → (n ≡ 0) ⊎ ((k : ℕ) × (n ≡ suc k))
  ℕ-cases zero = inl refl
  ℕ-cases (suc k) = inr (k, refl)

  -- What the server's turn keeps.
  start_server-keeps :
      (s : Startup)
      → ((start_server listen s).left ≡ s.left)
        × ((start_server listen s).joined ≡ s.joined)
        × ((start_server listen s).counter + (start_server listen s).adds_left
            ≡ s.counter + s.adds_left)
  unfolding start_server
  start_server-keeps s = elim (ℕ-cases s.adds_left) [
    | inl all ↦ elim (Option-cases listen) [ inl up ↦ ground arith | inr (e, down) ↦ ground arith ]
    | inr (k, more) ↦ ground arith
  ]

  start_server-Counts :
      (members : List Node) (s : Startup)
      → Counts members s
      → Counts members (start_server listen s)
  start_server-Counts members s v =
      let (left, joined, balance) = start_server-keeps s in
      record {
        balance = balance ∙ v.balance ∙ ap length (sym left);
        made = v.made;
        parts = ap (λ ms. v.made ++ ms) left ∙ v.parts;
        members_joined = joined ∙ v.members_joined;
      }

  abbrev after_client : Startup → Node → List Node → ℕ → Startup
  after_client s m ms k = record s {
    left = ms;
    counter = k;
    joined = insert m.id (client_of (connect m)) s.joined;
    gave_up = is_error (error_of (connect m));
    first_error = keep_first s.first_error (error_of (connect m));
  }

  start_clients-Counts :
      (members : List Node) (s : Startup)
      → Counts members s
      → ((s' : Startup) × (start_clients connect s ≡ ok s') × Counts members s')
        ⊎ ((start_clients connect s ≡ panic) × Ahead s)
  unfolding start_clients start_client done
  start_clients-Counts members s v = elim (Bool-cases s.gave_up) [
    | inl stopped ↦ inl (s, ground arith, v)
    | inr going ↦ elim (List-cases s.left) [
      | inl all ↦ inl (s, ground arith, v)
      | inr (m, ms, next) ↦ elim (ℕ-cases s.counter) [
        | inl zero_left ↦ inr (ground arith, (zero_left, ground (arith, v.balance)))
        | inr (k, more) ↦ inl (
          after_client s m ms k,
          ground arith,
          record {
            balance = ground (arith, v.balance);
            made = v.made ++ m ∷ [];
            parts = append_assoc v.made (m ∷ []) ms ∙ ap (λ l. v.made ++ l) (sym next) ∙ v.parts;
            members_joined =
                ap (insert m.id (client_of (connect m))) v.members_joined
                ∙ sym (join-snoc v.made m []);
          },
        )
      ]
    ]
  ]

  start_group-Counts : (members : List Node) → Counts members (start_group members)
  unfolding start_group
  start_group-Counts members = record {
    balance = omega arith;
    made = [];
    parts = refl;
    members_joined = refl;
  }

  -- From a state of the start, the turns lead to such a state, or the clients run ahead.
  turns-Counts :
      (members : List Node) (turns : List Turn) (s : Startup)
      → Counts members s
      → ((s' : Startup) × (take_turns connect listen turns s ≡ ok s') × Counts members s')
        ⊎ ((before : List Turn) × (after : List Turn) × (s' : Startup) × (turns
              ≡ before ++ client ∷ after)
            × (take_turns connect listen before s ≡ ok s')
            × Ahead s'
            × (take_turns connect listen turns s ≡ panic))
  unfolding take_turns take_turn
  turns-Counts members [] s v = inl (s, refl, v)
  turns-Counts members (server ∷ ts) s v =
      elim (turns-Counts members ts (start_server listen s) (start_server-Counts members s v)) [
        | inl (s', e, w) ↦ inl (s', e, w)
        | inr (before, rest, s', parts, e, ahead, fails) ↦
            inr (server ∷ before, rest, s', ap (λ l. server ∷ l) parts, e, ahead, fails)
      ]
  turns-Counts members (client ∷ ts) s v = elim (start_clients-Counts members s v) [
    | inr (fails, ahead) ↦ inr ([], ts, s, refl, refl, ahead, ground arith)
    | inl (mid, e, w) ↦ elim (turns-Counts members ts mid w) [
      | inl (s', f, x) ↦ inl (s', ground arith, x)
      | inr (before, rest, s', parts, f, ahead, fails) ↦
          inr (
            client ∷ before,
            rest,
            s',
            ap (λ l. client ∷ l) parts,
            ground arith,
            ahead,
            ground arith,
          )
    ]
  ]

  -- Whatever the order of turns of the server and of the clients at the start of a node, either
  -- the process goes on, the counter of the wait group and the adds left make up the members
  -- without a client, and the others joined in order, those with a nil client included; or the
  -- process panics, at a turn of the clients with the counter at 0 and adds left.
  pub startup_correct :
      (members : List Node) (turns : List Turn)
      → ((s : Startup) × (take_turns connect listen turns (start_group members) ≡ ok s)
          × Counts members s)
        ⊎ ((before : List Turn) × (after : List Turn) × (s : Startup) × (turns
              ≡ before ++ client ∷ after)
            × (take_turns connect listen before (start_group members) ≡ ok s)
            × Ahead s
            × (take_turns connect listen turns (start_group members) ≡ panic))
  startup_correct members turns =
      turns-Counts members turns (start_group members) (start_group-Counts members)
