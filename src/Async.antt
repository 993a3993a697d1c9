-- ===== src/Async.antt =====
-- Asynchronous methods. A `Task` is what is left of an execution: it reads and writes the page's
-- state and stops at each request until the server answers. An `async` function is written in
-- continuation passing style, `Async A`: it is given what follows, for a value and for an error.
pub mod Call
pub mod Refused
pub mod Run
pub mod Pool
use makoon.Prelude.{List, Text}
use makoon.Model.{ClusterNode}
use makoon.Api.{Request, Reply}
use makoon.World.{Failure, World}

-- How a promise is settled.
pub data Outcome (A : Type 0) : Type 0 where
  resolved : A → Outcome A
  rejected : Failure → Outcome A

pub data Task : Type 0 where
  end : Task
  get : (World → Task) → Task
  put : World → Task → Task
  -- `await` of a request
  call : (r : Request) → (Outcome (Reply r) → Task) → Task
  -- an `async` function called and not awaited, beside the rest
  spawn : Task → Task → Task

abbrev pub Async : Type 0 → Type 0
Async A = (Outcome A → Task) → Task

abbrev pub pure : {A : Type 0} → A → Async A
pure a k = k (resolved a)

abbrev pub raise : {A : Type 0} → Failure → Async A
raise e k = k (rejected e)

abbrev pub continue : {A B : Type 0} → (A → Async B) → (Outcome B → Task) → Outcome A → Task
continue f k (resolved a) = f a k
continue f k (rejected e) = k (rejected e)

infixl 5 ◌>>=◌ ◌>>◌
abbrev pub ◌>>=◌ : {A B : Type 0} → Async A → (A → Async B) → Async B
◌>>=◌ m f k = m (continue f k)

abbrev pub ◌>>◌ : {A B : Type 0} → Async A → Async B → Async B
m >> n = m >>= λ _. n

abbrev pub handle : {A : Type 0} → (Failure → Async A) → (Outcome A → Task) → Outcome A → Task
handle h k (resolved a) = k (resolved a)
handle h k (rejected e) = h e k

-- `try { return await m } catch (e) { h }`.
abbrev pub try_catch : {A : Type 0} → Async A → (Failure → Async A) → Async A
try_catch m h k = m (handle h k)

-- The outcome of a block after its `finally`: an error of the `finally` wins.
abbrev pub settle : {A : Type 0} → (Outcome A → Task) → Outcome A → Outcome (Unit {0}) → Task
settle k o (resolved _) = k o
settle k o (rejected e) = k (rejected e)

-- `try { return await m } finally { f }`.
abbrev pub try_finally : {A : Type 0} → Async A → Async (Unit {0}) → Async A
try_finally m f k = m (λ o. f (settle k o))

abbrev pub gets : {A : Type 0} → (World → A) → Async A
gets f k = get (λ w. k (resolved (f w)))

abbrev pub modify : (World → World) → Async (Unit {0})
modify f k = get (λ w. put (f w) (k (resolved tt)))

abbrev pub request : (r : Request) → Async (Reply r)
request r k = call r k

-- A call of an `async` function that is not awaited; its outcome is dropped.
abbrev pub detach : {A : Type 0} → Async A → Async (Unit {0})
detach m k = spawn (m (λ _. end)) (k (resolved tt))
