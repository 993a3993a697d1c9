-- ===== src/Async/Refused.antt =====
-- What a refused `apiCall` shows to the user: the loaders of processing-indicator-store.ts and
-- `isError` of application-store.ts.
use makoon.Prelude.{◌≡◌, ◌∙◌, refl, false, none, Text, ==_refl, text_eq}
use makoon.Api.{Request}
use makoon.World.{World, Failure, object}
use makoon.World.Loaders.{status, is_error, throw_error, stop_processing, status-stop_processing}
use makoon.Async.{rejected, end, request}
use makoon.Async.Call.{api_call}
use makoon.Async.Run.{Server, run, Settles-call}

-- A call of one request that the server refuses turns its indicator off and stores the error, but
-- `isError` then answers false: what is stored is an object, which has no length.
pub api_call_refused :
    {S : Type 0} (serve : Server S) (r : Request) (key : Text) (w : World) (s s' : S) (e : Failure)
    → serve r s ≡ (rejected e, s')
    → let w' = (run serve (api_call (request r) key (λ _. end)) w s).0 in
      (status key w'.indicator ≡ none)
      × (w'.application.error ≡ object e)
      × (is_error w'.application ≡ false)
unfolding run is_error throw_error status stop_processing
api_call_refused serve r key w s s' e h =
    rw (Settles-call serve r key w s (rejected e) s' h)
      (status-stop_processing key key w.indicator ∙ rw ==_refl refl, refl, refl)
