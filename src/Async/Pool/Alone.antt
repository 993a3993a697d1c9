-- ===== src/Async/Pool/Alone.antt =====
-- One method alone in the pool, beside a run of it.
use makoon.Prelude.{◌≡◌, refl, []}
use makoon.Api.{Request, Reply}
use makoon.World.{World}
use makoon.Async.{Task, end, get, put, call, spawn, Outcome}
use makoon.Async.Run.{Server, run}
use makoon.Async.Pool.{advance, System, idle, start, deliver}

-- A task that starts no other one.
pub data IsSequential : Task → Type 0 where
  ends : IsSequential end
  reads : {f : World → Task} → ((w : World) → IsSequential (f w)) → IsSequential (get f)
  writes : {w : World} {t : Task} → IsSequential t → IsSequential (put w t)
  asks :
      {r : Request} {k : Outcome (Reply r) → Task}
      → ((o : Outcome (Reply r)) → IsSequential (k o))
      → IsSequential (call r k)

module _ {S : Type 0} (serve : Server S) where
  -- Answers to the task that has waited longest, until no task waits.
  pub data Drains : System S → System S → Type 0 where
    rests : {x : System S} → x.waiting ≡ [] → Drains x x
    answered : {x y : System S} → Drains (deliver serve 0 x) y → Drains x y

  -- A task that starts no other one, alone in the pool, ends after finitely many answers, in the
  -- state of the page and of the server that its run says.
  pub start-run :
      (t : Task) (w : World) (s : S)
      → IsSequential t
      → Drains (start t (idle w s)) (idle (run serve t w s).0 (run serve t w s).1)
  unfolding run advance
  start-run end w s ends = rests refl
  start-run (get f) w s (reads h) = start-run (f w) w s (h w)
  start-run (put w' t) w s (writes h) = start-run t w' s h
  start-run (call r k) w s (asks h) =
      answered (start-run (k (serve r s).0) w (serve r s).1 (h (serve r s).0))
  start-run (spawn t u) w s h = elim h [ ]
