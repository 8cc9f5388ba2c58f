-- ===== src/Node/Start.antt =====
-- Start of lib/mp1/multicast/total_ording.go, r_multicast.go and b_multicast.go, and Start of group.go:
-- each layer binds its handlers before the layer below starts. `waited` is how the server and the
-- clients start, with what the broker is then, and the error that the error group returns.
use mathlib.Core.Path.{subst}
use cs425_mps.Base.{Option-cases, ◌≡◌, refl, ◌≢◌, ℕ, Option, none, some, [], ◌∷◌, arith, inl, inr}
use cs425_mps.Base.Text.{Str, str_eq, str_eq_iff}
use cs425_mps.Base.Dict.{lookup, insert}
use cs425_mps.Base.Result.{Error}
use cs425_mps.Router.{Router, new, bind}
use cs425_mps.Broker.{Broker, subscribe}
use cs425_mps.BMulticast.{BHandler, b_deliver, r_deliver, wait_proposal_seq, b_multicast_path}
use cs425_mps.RMulticast.{r_multicast_path}
use cs425_mps.Node.Frame.{bound_handlers}
use cs425_mps.Node.{
  RHandler, asks_proposal, announces_agreement, ask_proposal_seq_path, wait_proposal_seq_path,
  announce_agreement_seq_path, r_router, b_router,
}

-- The routers of the two lower layers, the broker of the counts, and the channel of the goroutine
-- that collects the votes, once that runs.
pub record Layers : Type 0 where
  pub b : Router BHandler
  pub r : Router RHandler
  pub member_update : Broker ℕ
  pub collecting : Option ℕ

unfoldable pub new_layers : Layers
new_layers = record { b = new; r = new; member_update = cs425_mps.Broker.new; collecting = none }

unfoldable pub bind_to_deliver : Layers → Layers
bind_to_deliver l = record l {
  r =
      bind (bind l.r ask_proposal_seq_path asks_proposal) announce_agreement_seq_path
        announces_agreement;
  b = bind l.b wait_proposal_seq_path wait_proposal_seq;
}

unfoldable pub bind_r_deliver : Layers → Layers
bind_r_deliver l = record l { b = bind l.b r_multicast_path r_deliver }

unfoldable pub bind_b_deliver : Layers → Layers
bind_b_deliver l = record l { b = bind l.b b_multicast_path b_deliver }

module _ (waited : Layers → Broker ℕ × Option Error) where
  unfoldable pub b_start : Layers → Layers × Option Error
  b_start l =
      let bound = bind_b_deliver l in
      let (broker, failed) = waited bound in (record bound { member_update = broker }, failed)

  unfoldable pub r_start : Layers → Layers × Option Error
  r_start l = b_start (bind_r_deliver l)

  -- The start waits for good, and gives none, where the subscription finds no room.
  unfoldable pub to_start : Layers → Option (Layers × Option Error)
  to_start l =
      let (started, failed) = r_start (bind_to_deliver l) in
      elim failed [
        | some e ↦ some (started, some e)
        | none ↦ elim (subscribe started.member_update) [
          | none ↦ none
          | some (broker, channel) ↦
              some (record started { member_update = broker; collecting = some channel }, none)
        ]
      ]

  -- Start of the group is that of its highest layer.
  unfoldable pub group_start : Layers → Option (Layers × Option Error)
  group_start l = to_start l

  -- A node with the routers that Node has.
  pub record IsStarted (l : Layers) (failed : Option Error) : Type 0 where
    pub b_bound : (path : Str) → lookup path l.b.routers ≡ lookup path b_router.routers
    pub r_bound : l.r ≡ r_router
    pub collects : failed ≡ none → l.collecting ≢ none
    pub stopped : failed ≢ none → l.collecting ≡ none

  abbrev bound : Layers
  bound = bind_b_deliver (bind_r_deliver (bind_to_deliver new_layers))

  bound-routers :
      bound.b.routers
      ≡ (wait_proposal_seq_path, wait_proposal_seq)
        ∷ (r_multicast_path, r_deliver)
        ∷ (b_multicast_path, b_deliver)
        ∷ []
  unfolding new_layers bind_to_deliver bind_r_deliver bind_b_deliver new bind insert str_eq
  bound-routers = refl

  b_bound : (path : Str) → lookup path bound.b.routers ≡ lookup path b_router.routers
  unfolding lookup
  b_bound path =
      rw (bound-routers, bound_handlers)
        (ground (
          arith,
          str_eq_iff b_multicast_path path,
          str_eq_iff r_multicast_path path,
          str_eq_iff wait_proposal_seq_path path,
        ))

  r_bound : bound.r ≡ r_router
  unfolding new_layers bind_to_deliver bind_r_deliver bind_b_deliver r_router
  r_bound = refl

  -- The state in which the start ends.
  failed-IsStarted :
      (x : Error) → IsStarted (record bound { member_update = (waited bound).0 }) (some x)
  unfolding new_layers bind_to_deliver bind_r_deliver bind_b_deliver
  failed-IsStarted x = record {
    b_bound = b_bound;
    r_bound = r_bound;
    collects = λ e. absurd (ground (arith, e));
    stopped = λ ne. refl;
  }

  done-IsStarted :
      (broker : Broker ℕ) (channel : ℕ)
      → IsStarted (record bound { member_update = broker; collecting = some channel }) none
  done-IsStarted broker channel = record {
    b_bound = b_bound;
    r_bound = r_bound;
    collects = λ e no. ground (arith, no);
    stopped = λ ne. absurd (ne refl);
  }

  same_end : (x y : Layers × Option Error) → some x ≡ some y → IsStarted x.0 x.1 → IsStarted y.0 y.1
  same_end x y e h = let same : x ≡ y = cc in subst (λ p. IsStarted p.0 p.1) same h

  -- Where the start comes to an end, each path of the basic multicast has the handler that Node binds to it,
  -- and the router of the reliable multicast is that of Node; the votes are collected exactly if the start
  -- has no error.
  pub group_start_correct :
      (l : Layers) (failed : Option Error)
      → group_start new_layers ≡ some (l, failed)
      → IsStarted l failed
  unfolding group_start to_start r_start b_start
  group_start_correct l failed e = elim (Option-cases (waited bound).1) [
    | inr (x, bad) ↦
        same_end _ (l, failed) (rw (bad, group_start, to_start, r_start, b_start) at e)
          (failed-IsStarted x)
    | inl good ↦ elim (Option-cases (subscribe (waited bound).0)) [
      | inl full ↦ absurd (ground (arith, e, good, full))
      | inr ((broker, channel), fine) ↦
          same_end _ (l, failed) (rw (good, fine, group_start, to_start, r_start, b_start) at e)
            (done-IsStarted broker channel)
    ]
  ]
