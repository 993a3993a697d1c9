-- ===== src/Async/Run.antt =====
-- Running a task alone against a server with a state of its own: no other task runs between a
-- request and its answer. A task that is not awaited runs after the rest.
use makoon.Prelude.{◌≡◌, ap, Text}
use makoon.Api.{Request, Reply}
use makoon.World.{World, object, ProcessingIndicatorStore}
use makoon.World.Loaders.{throw_error, start_processing, stop_processing, stop-start_processing}
use makoon.Async.{Task, end, get, put, call, spawn, Outcome, resolved, rejected, Async, request}
use makoon.Async.Call.{wrap_with_processing_indicator, api_call}

abbrev pub Server : Type 0 → Type 0
Server S = (r : Request) → S → Outcome (Reply r) × S

unfoldable pub run : {S : Type 0} → Server S → Task → World → S → World × S
run serve end w s = (w, s)
run serve (get f) w s = run serve (f w) w s
run serve (put w' t) w s = run serve t w' s
run serve (call r k) w s = let (o, s') = serve r s in run serve (k o) w s'
run serve (spawn t u) w s = let (w', s') = run serve u w s in run serve t w' s'

-- What an API call leaves behind: its key is off, and an error is in the application's store.
abbrev pub after_call : {A : Type 0} → Text → Outcome A → World → World
after_call key (resolved _) w = record w { indicator = stop_processing key w.indicator }
after_call key (rejected e) w = record w {
  indicator = stop_processing key w.indicator;
  application = throw_error (object e) w.application;
}

-- An outcome without its value.
abbrev pub done : {A : Type 0} → Outcome A → Outcome (Unit {0})
done (resolved _) = resolved tt
done (rejected e) = rejected e

module _ {S : Type 0} (serve : Server S) where
  -- From the state `w` and the server's state `s`, `m` is settled with `o` and leaves `w'` and `s'`,
  -- whatever follows.
  abbrev pub Settles : {A : Type 0} → Async A → World → S → Outcome A → World → S → Type 0
  Settles {A} m w s o w' s' = (k : Outcome A → Task) → run serve (m k) w s ≡ run serve (k o) w' s'

  pub Settles-request :
      (r : Request) (w : World) (s : S) (o : Outcome (Reply r)) (s' : S)
      → serve r s ≡ (o, s')
      → Settles (request r) w s o w s'
  unfolding run
  Settles-request r w s o s' e k = rw (run, e)

  pub Settles-api_call :
      {A : Type 0} (m : Async A) (key : Text) (w : World) (s : S) (o : Outcome A) (s' : S)
      → Settles m
          (record w { indicator = start_processing key w.indicator })
          s
          o
          (record w { indicator = start_processing key w.indicator })
          s'
      → Settles (api_call m key) w s o (after_call key o w) s'
  unfolding run api_call
  Settles-api_call m key w s (resolved a) s' h k = rw h (
      ap
        (λ (i : ProcessingIndicatorStore).
          run serve (k (resolved a)) (record w { indicator = i }) s')
        (stop-start_processing key w.indicator))
  Settles-api_call m key w s (rejected e) s' h k = rw h (
      ap
        (λ (i : ProcessingIndicatorStore).
          run serve (k (rejected e))
            (record w { indicator = i; application = throw_error (object e) w.application }) s')
        (stop-start_processing key w.indicator))

  -- An API call of one request.
  pub Settles-call :
      (r : Request) (key : Text) (w : World) (s : S) (o : Outcome (Reply r)) (s' : S)
      → serve r s ≡ (o, s')
      → Settles (api_call (request r) key) w s o (after_call key o w) s'
  Settles-call r key w s o s' e =
      Settles-api_call (request r) key w s o s' (Settles-request r _ s o s' e)

  -- A block under an indicator: its outcome is the block's, and the indicator is off afterwards.
  pub Settles-wrap_with_processing_indicator :
      {A : Type 0} (m : Async A) (key : Text) (w : World) (s : S) (o : Outcome A) (s' : S)
      → Settles m
          (record w { indicator = start_processing key w.indicator })
          s
          o
          (record w { indicator = start_processing key w.indicator })
          s'
      → Settles
          (wrap_with_processing_indicator key m)
          w
          s
          o
          (record w { indicator = stop_processing key w.indicator })
          s'
  unfolding run wrap_with_processing_indicator
  Settles-wrap_with_processing_indicator m key w s o s' h k = rw h (
      ap (λ (i : ProcessingIndicatorStore). run serve (k o) (record w { indicator = i }) s')
        (stop-start_processing key w.indicator))
