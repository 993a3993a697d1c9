-- ===== src/Async/Pool/Keeps/Methods.antt =====
-- Asynchronous methods in continuation passing style that keep a predicate, whatever follows them.
use makoon.Prelude.{Bool, true, false, Option, none, some, Text, if◌then◌else◌}
use makoon.Api.{Request}
use makoon.World.{World, Failure, type_error}
use makoon.Async.{
  Task, Outcome, resolved, rejected, Async, raise, gets, modify, request, detach, end, continue,
  handle, settle, try_finally, ◌>>=◌, ◌>>◌,
}
use makoon.Async.Call.{api_call, start, stop, fail}
use makoon.Management.Actions.{defined}
use makoon.Async.Pool.Keeps.{Keeps, ends, reads, writes, asks, spawns}

module _ (P : World → Type 0) (R : Request → Type 0) where
  -- A method that keeps `P`, whatever follows it.
  abbrev pub KeepsAsync : {A : Type 0} → Async A → Type 0
  KeepsAsync {A} m = (k : Outcome A → Task) → ((o : Outcome A) → Keeps P R (k o)) → Keeps P R (m k)

  pub keeps_bind :
      {A B : Type 0} (m : Async A) (f : A → Async B)
      → KeepsAsync m
      → ((a : A) → KeepsAsync (f a))
      → KeepsAsync (m >>= f)
  keeps_bind {A} {B} m f km kf k h = km (continue f k) go
    where
      go : (o : Outcome A) → Keeps P R (continue f k o)
      go (resolved a) = kf a k h
      go (rejected e) = h (rejected e)

  pub keeps_modify : (f : World → World) → ((w : World) → P w → P (f w)) → KeepsAsync (modify f)
  keeps_modify f kf k h = reads (λ w p. writes (kf w p) (h (resolved tt)))

  pub keeps_gets : {A : Type 0} (f : World → A) → KeepsAsync (gets f)
  keeps_gets f k h = reads (λ w p. h (resolved (f w)))

  pub keeps_request : (r : Request) → R r → KeepsAsync (request r)
  keeps_request r ok k h = asks ok h

  module _ (starts : (key : Text) (w : World) → P w → P (start key w))
      (stops : (key : Text) (w : World) → P w → P (stop key w))
      (fails : (e : Failure) (w : World) → P w → P (fail e w)) where
    pub keeps_api_call :
        {A : Type 0} (m : Async A) (key : Text) → KeepsAsync m → KeepsAsync (api_call m key)
    unfolding api_call
    keeps_api_call {A} m key km k h = reads (λ w p. writes (starts key w p) (km _ caught))
      where
        stopped : (o : Outcome A) → Keeps P R (modify (stop key) (settle k o))
        stopped o = reads (λ w p. writes (stops key w p) (h o))

        caught :
            (o : Outcome A)
            → Keeps P R
                (handle (λ e. modify (fail e) >> raise e) (λ o'. modify (stop key) (settle k o')) o)
        caught (resolved a) = stopped (resolved a)
        caught (rejected e) = reads (λ w p. writes (fails e w p) (stopped (rejected e)))

  keeps_settled :
      {A : Type 0} (k : Outcome A → Task) (o : Outcome A) (o' : Outcome (Unit {0}))
      → ((o : Outcome A) → Keeps P R (k o))
      → Keeps P R (settle k o o')
  keeps_settled k o (resolved u) h = h o
  keeps_settled k o (rejected e) h = h (rejected e)

  pub keeps_try_finally :
      {A : Type 0} (m : Async A) (f : Async (Unit {0}))
      → KeepsAsync m
      → KeepsAsync f
      → KeepsAsync (try_finally m f)
  keeps_try_finally m f km kf k h =
      km (λ o. f (settle k o)) (λ o. kf (settle k o) (λ o'. keeps_settled k o o' h))

  pub keeps_detach : {A : Type 0} (m : Async A) → KeepsAsync m → KeepsAsync (detach m)
  keeps_detach m km k h = spawns (km (λ _. end) (λ _. ends)) (h (resolved tt))

  pub keeps_if :
      {A : Type 0} (b : Bool) (m n : Async A)
      → KeepsAsync m
      → KeepsAsync n
      → KeepsAsync (if b then m else n)
  keeps_if true m n km kn = km
  keeps_if false m n km kn = kn

  pub keeps_defined : {A : Type 0} (o : Option A) → KeepsAsync (defined o)
  keeps_defined none k h = h (rejected type_error)
  keeps_defined (some a) k h = h (resolved a)
