-- ===== src/Router.antt =====
-- lib/mp1/router/router.go: handlers by path. A handler is a closure over the parts of the node; a
-- table holds its name, and `run` is given how a name acts on the node's state.
use cs425_mps.Base.{Option, none, some, []}
use cs425_mps.Base.Text.{Str}
use cs425_mps.Base.Dict.{Dict, lookup, insert}
use cs425_mps.Base.Run.{Run, ok}
use cs425_mps.Base.Result.{Error, no_route}

pub record Msg (B : Type 0) : Type 0 where
  pub path : Str
  pub body : B

abbrev pub new_msg : {B : Type 0} → Str → B → Msg B
new_msg path v = record { path = path; body = v }

pub record Router (H : Type 0) : Type 0 where
  pub routers : Dict H

unfoldable pub new : {H : Type 0} → Router H
new = record { routers = [] }

unfoldable pub bind : {H : Type 0} → Router H → Str → H → Router H
bind d path f = record d { routers = insert path f d.routers }

-- A path that no handler is bound to is an error, and leaves the state as it was.
unfoldable pub run :
    {H M S : Type 0}
    → (H → M → S → Run (S × Option Error))
    → Router H
    → Str
    → M
    → S
    → Run (S × Option Error)
run apply d path msg s = elim (lookup path d.routers) [
  | none ↦ ok (s, some no_route)
  | some f ↦ apply f msg s
]
