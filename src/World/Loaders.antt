-- ===== src/World/Loaders.antt =====
-- web/src-web/src/store/application-store.ts and processing-indicator-store.ts.
use makoon.Prelude.{
  ◌≡◌, refl, Bool, true, false, Option, none, some, List, [], ◌∷◌, arith, length, ltb, Text,
  text_eq, ◌==◌, ==_iff, ==_refl, if◌then◌else◌,
}
use makoon.World.{ErrorValue, message, object, ApplicationStore, ProcessingIndicatorStore}

unfoldable pub throw_error : ErrorValue → ApplicationStore → ApplicationStore
throw_error e s = record s { error = e }

unfoldable pub clear_error : ApplicationStore → ApplicationStore
clear_error s = record s { error = message [] }

-- `this.error.length > 0`: an error object has no `length`, and `undefined > 0` is false.
unfoldable pub is_error : ApplicationStore → Bool
is_error s = elim s.error [ message m ↦ ltb 0 (length m) | object e ↦ false ]

-- `loaders[key]`, `loaders[key] = value` and `delete loaders[key]`.
unfoldable pub get {ℓ} : {V : Type ℓ} → Text → List (Text × V) → Option V
get k [] = none
get k ((j, v) ∷ m) = if j == k then some v else get k m

unfoldable pub remove {ℓ} : {V : Type ℓ} → Text → List (Text × V) → List (Text × V)
remove k [] = []
remove k ((j, v) ∷ m) = let rest = remove k m in if j == k then rest else (j, v) ∷ rest

unfoldable pub put {ℓ} : {V : Type ℓ} → Text → V → List (Text × V) → List (Text × V)
unfolding remove
put k v m = (k, v) ∷ remove k m

unfoldable pub start_processing : Text → ProcessingIndicatorStore → ProcessingIndicatorStore
unfolding put
start_processing key s = record { loaders = put key true s.loaders }

unfoldable pub stop_processing : Text → ProcessingIndicatorStore → ProcessingIndicatorStore
unfolding remove
stop_processing key s = record { loaders = remove key s.loaders }

-- `none` is `undefined`, which the views read as false.
unfoldable pub status : Text → ProcessingIndicatorStore → Option Bool
unfolding get
status key s = get key s.loaders

pub get-remove {ℓ} :
    {V : Type ℓ} (k j : Text) (m : List (Text × V))
    → get j (remove k m) ≡ (if k == j then none else get j m)
unfolding get remove
get-remove k j [] = ground arith
get-remove k j ((i, v) ∷ m) = ground (arith, get-remove k j m, ==_iff i k, ==_iff i j, ==_iff k j)

remove_idem {ℓ} : {V : Type ℓ} (k : Text) (m : List (Text × V)) → remove k (remove k m) ≡ remove k m
unfolding remove
remove_idem k [] = refl
remove_idem k ((i, v) ∷ m) = ground (arith, remove_idem k m)

-- `startProcessing` shows its key, and every other key has the status it had.
pub status-start_processing :
    (k j : Text) (s : ProcessingIndicatorStore)
    → status j (start_processing k s) ≡ (if k == j then some true else status j s)
unfolding status start_processing get
status-start_processing k j s = ground (arith, get-remove k j s.loaders)

-- `stopProcessing` hides its key, and every other key has the status it had.
pub status-stop_processing :
    (k j : Text) (s : ProcessingIndicatorStore)
    → status j (stop_processing k s) ≡ (if k == j then none else status j s)
unfolding status stop_processing
status-stop_processing k j s = get-remove k j s.loaders

-- To stop what was started leaves the loaders without the key, started or not.
pub stop-start_processing :
    (k : Text) (s : ProcessingIndicatorStore)
    → stop_processing k (start_processing k s) ≡ stop_processing k s
unfolding stop_processing start_processing
stop-start_processing k s = rw ==_refl (rw remove_idem)
