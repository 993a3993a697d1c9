-- ===== src/Async/Pool.antt =====
-- Several asynchronous methods at once, as the page runs them: each goes on until its next request,
-- and the answers come in any order.
pub mod Races
pub mod Alone
pub mod Keeps
use makoon.Prelude.{ℕ, zero, suc, Option, none, some, List, [], ◌∷◌, ◌++◌}
use makoon.Api.{Request}
use makoon.World.{World}
use makoon.Async.{Task, end, get, put, call, spawn}
use makoon.Async.Run.{Server}

-- Up to its next request, and that of each task that it starts. A task that is not awaited runs to its
-- own first request before the rest goes on.
unfoldable pub advance : Task → World → World × List Task
advance end w = (w, [])
advance (get f) w = advance (f w) w
advance (put w' t) w = advance t w'
advance (call r k) w = (w, call r k ∷ [])
advance (spawn t u) w =
    let (w', ts) = advance t w in let (w'', us) = advance u w' in (w'', ts ++ us)

-- The request that a waiting task stands at.
abbrev pub asked : Task → Option Request
asked (call r k) = some r
asked _ = none

pub record System (S : Type 0) : Type 0 where
  pub world : World
  pub server : S
  -- the tasks that wait for an answer, the oldest first
  pub waiting : List Task

module _ {S : Type 0} where
  abbrev pub idle : World → S → System S
  idle w s = record { world = w; server = s; waiting = [] }

  abbrev pub go_on : Task → List Task → List Task → System S → System S
  go_on t before behind x =
      let (w', ts) = advance t x.world in
      record { world = w'; server = x.server; waiting = before ++ ts ++ behind }

  -- The user or a timer calls a method.
  abbrev pub start : Task → System S → System S
  start t x = go_on t x.waiting [] x

  module _ (serve : Server S) where
    abbrev pub answer : Task → List Task → List Task → System S → System S
    answer (call r k) before behind x =
        let (o, s') = serve r x.server in go_on (k o) before behind (record x { server = s' })
    answer _ before behind x = x

    abbrev pub deliver_from : ℕ → List Task → List Task → System S → System S
    deliver_from i before [] x = x
    deliver_from zero before (t ∷ behind) x = answer t before behind x
    deliver_from (suc i) before (t ∷ behind) x = deliver_from i (before ++ t ∷ []) behind x

    -- The task with the index `i` among those that wait is answered.
    abbrev pub deliver : ℕ → System S → System S
    deliver i x = deliver_from i [] x.waiting x
