-- ===== src/Async/Call.antt =====
-- `wrapWithProcessingIndicator` of web/src-web/src/store/processing-indicator-store.ts and `apiCall`
-- of web/src-web/src/utils/api.ts.
use makoon.Prelude.{Text}
use makoon.World.{World, Failure, object}
use makoon.World.Loaders.{throw_error, start_processing, stop_processing}
use makoon.Async.{Async, raise, try_catch, try_finally, modify, ◌>>◌}

abbrev pub start : Text → World → World
start key w = record w { indicator = start_processing key w.indicator }

abbrev pub stop : Text → World → World
stop key w = record w { indicator = stop_processing key w.indicator }

unfoldable pub wrap_with_processing_indicator : {A : Type 0} → Text → Async A → Async A
wrap_with_processing_indicator key fn = do modify (start key); try_finally fn (modify (stop key))

abbrev pub fail : Failure → World → World
fail e w = record w { application = throw_error (object e) w.application }

-- The caller gives the key; where the source leaves it out, it is a random text.
unfoldable pub api_call : {A : Type 0} → Async A → Text → Async A
unfolding wrap_with_processing_indicator
api_call fn call_key =
    wrap_with_processing_indicator call_key (try_catch fn (λ e. do modify (fail e); raise e))
