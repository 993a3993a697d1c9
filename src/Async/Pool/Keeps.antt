-- ===== src/Async/Pool/Keeps.antt =====
-- What holds of the page through every order of calls and answers: a predicate that each write of the
-- running methods keeps.
pub mod Methods
pub mod About
pub mod Stays
pub mod OneCluster
pub mod Polls
use makoon.Prelude.{ℕ, zero, suc, ◌++◌, List, [], ◌∷◌, All, All-append, Text}
use makoon.Api.{Request, Reply}
use makoon.World.{World}
use makoon.Async.{
  Task, end, get, put, call, spawn, Outcome, resolved, rejected, Async, pure, raise, gets, modify,
  request, try_catch, try_finally, continue, handle, settle, ◌>>=◌,
}
use makoon.Async.Run.{Server}
use makoon.Async.Pool.{advance, System, start, deliver, deliver_from, go_on, answer}

-- Each write of the task keeps `P` and each of its requests is one of `R`, whatever the server answers.
pub data Keeps (P : World → Type 0) (R : Request → Type 0) : Task → Type 0 where
  ends : Keeps P R end
  reads : {f : World → Task} → ((w : World) → P w → Keeps P R (f w)) → Keeps P R (get f)
  writes : {w : World} {t : Task} → P w → Keeps P R t → Keeps P R (put w t)
  asks :
      {r : Request} {k : Outcome (Reply r) → Task}
      → R r
      → ((o : Outcome (Reply r)) → Keeps P R (k o))
      → Keeps P R (call r k)
  spawns : {t u : Task} → Keeps P R t → Keeps P R u → Keeps P R (spawn t u)

-- A waiting task stands at a request of `R`, and goes on with writes that keep `P`.
pub data Waits (P : World → Type 0) (R : Request → Type 0) : Task → Type 0 where
  waits :
      {r : Request} {k : Outcome (Reply r) → Task}
      → R r
      → ((o : Outcome (Reply r)) → Keeps P R (k o))
      → Waits P R (call r k)

module _ (P : World → Type 0) (R : Request → Type 0) where
  advance-Keeps :
      (t : Task) (w : World)
      → Keeps P R t
      → P w
      → P (advance t w).0 × All (Waits P R) (advance t w).1
  unfolding advance
  advance-Keeps end w ends h = (h, tt)
  advance-Keeps (get f) w (reads k) h = advance-Keeps (f w) w (k w h) h
  advance-Keeps (put w' t) w (writes h' k) h = advance-Keeps t w' k h'
  advance-Keeps (call r f) w (asks r_ok k) h = (h, (waits r_ok k, tt))
  advance-Keeps (spawn t u) w (spawns k l) h =
      let first = advance-Keeps t w k h in
      let second = advance-Keeps u (advance t w).0 l first.0 in
      (
        second.0,
        All-append (Waits P R) (advance t w).1 (advance u (advance t w).0).1 first.1 second.1,
      )

  module _ {S : Type 0} where
    abbrev pub IsKept : System S → Type 0
    IsKept x = P x.world × All (Waits P R) x.waiting

    go_on-IsKept :
        (t : Task) (before behind : List Task) (x : System S)
        → Keeps P R t
        → P x.world
        → All (Waits P R) before
        → All (Waits P R) behind
        → IsKept (go_on t before behind x)
    go_on-IsKept t before behind x k h b c =
        let step = advance-Keeps t x.world k h in
        (
          step.0,
          All-append (Waits P R) (before ++ (advance t x.world).1) behind
              (All-append (Waits P R) before (advance t x.world).1 b step.1) c,
        )

    pub start-IsKept : (t : Task) (x : System S) → Keeps P R t → IsKept x → IsKept (start t x)
    start-IsKept t x k (h, b) = go_on-IsKept t x.waiting [] x k h b tt

    module _ (serve : Server S) where
      answer-IsKept :
          (t : Task) (before behind : List Task) (x : System S)
          → Waits P R t
          → IsKept x
          → All (Waits P R) before
          → All (Waits P R) behind
          → IsKept (answer serve t before behind x)
      answer-IsKept t before behind x (waits {r} {k} _ f) (h, _) b c =
          go_on-IsKept (k (serve r x.server).0) before behind
            (record x { server = (serve r x.server).1 }) (f (serve r x.server).0) h b c

      deliver_from-IsKept :
          (i : ℕ) (before behind : List Task) (x : System S)
          → IsKept x
          → All (Waits P R) before
          → All (Waits P R) behind
          → IsKept (deliver_from serve i before behind x)
      deliver_from-IsKept i before [] x kept b c = kept
      deliver_from-IsKept zero before (t ∷ behind) x kept b (k, c) =
          answer-IsKept t before behind x k kept b c
      deliver_from-IsKept (suc i) before (t ∷ behind) x kept b (k, c) =
          deliver_from-IsKept i (before ++ t ∷ []) behind x kept
            (All-append (Waits P R) before (t ∷ []) b (k, tt)) c

-- What the page can become: methods that `Allowed` holds of are called at any time, and the requests
-- that wait are answered in any order.
pub data Reaches {S : Type 0} (serve : Server S) (Allowed : Task → Type 0)
    : System S → System S → Type 0 where
  here : {x : System S} → Reaches serve Allowed x x
  called :
      {x y : System S} {t : Task}
      → Reaches serve Allowed x y
      → Allowed t
      → Reaches serve Allowed x (start t y)
  answered :
      {x y : System S} (i : ℕ)
      → Reaches serve Allowed x y
      → Reaches serve Allowed x (deliver serve i y)

module _ {S : Type 0} (serve : Server S) (Allowed : Task → Type 0) (P : World → Type 0)
    (R : Request → Type 0) (keeps : (t : Task) → Allowed t → Keeps P R t) where
  pub Reaches-IsKept : {x y : System S} → Reaches serve Allowed x y → IsKept P R x → IsKept P R y
  Reaches-IsKept here kept = kept
  Reaches-IsKept (called {y} {t} r a) kept =
      start-IsKept P R t y (keeps t a) (Reaches-IsKept r kept)
  Reaches-IsKept (answered {y} i r) kept =
      let before = Reaches-IsKept r kept in
      deliver_from-IsKept P R serve i [] y.waiting y before tt before.1
