-- ===== src/Adapter/Tracker/Examples.antt =====
-- Runs of authTracker.
use authd.Prelude.{ℕ, ◌≡◌, refl, some, [], ◌∷◌, ◌⊎◌, arith}
use authd.Adapter.Tracker.{
  starts, Tracker, new_tracker, wait_and_start, attempt, wait, finish_cancel, reset, Reach, request,
}
use authd.Adapter.Tracker.Progress.{
  fresh, requested, StartsNext, request_progress, one_authentication,
}
use authd.Adapter.Tracker.LostWakeup.{IsStuck, left_behind, lost_wakeup}

-- a request, its cancellation, and a second request
abbrev cancelled_request : Tracker
cancelled_request = wait_and_start 2 (finish_cancel (some 1) (wait_and_start 1 new_tracker))

lost_wakeup_example :
    Reach cancelled_request (left_behind cancelled_request)
    × IsStuck (left_behind cancelled_request) (starts 2 ∷ [])
    × ((wait_and_start 3 (left_behind cancelled_request) ≡ left_behind cancelled_request)
        ⊎ (((c : ℕ) × (wait_and_start 3 (left_behind cancelled_request)
                ≡ wait_and_start c (left_behind cancelled_request)))
            ⊎ (wait_and_start 3 (left_behind cancelled_request)
                ≡ reset (left_behind cancelled_request))))
unfolding wait_and_start finish_cancel wait attempt
lost_wakeup_example =
    lost_wakeup cancelled_request (wait_and_start 3 (left_behind cancelled_request)) (starts 2 ∷ [])
      refl refl (request (left_behind cancelled_request) 3)

-- a second request while the first is in progress
abbrev queued_request : Tracker
queued_request = wait_and_start 2 (wait_and_start 1 new_tracker)

request_progress_example :
    ((c : ℕ) × (queued_request.cancel_func ≡ some c)) ⊎ StartsNext queued_request
unfolding wait_and_start attempt
request_progress_example = request_progress (requested (requested fresh 1) 2) (omega arith)

one_authentication_example :
    (queued_request.cancel_func ≡ some 1) ⊎ (queued_request ≡ reset (wait_and_start 1 new_tracker))
unfolding wait_and_start attempt
one_authentication_example =
    one_authentication (wait_and_start 1 new_tracker) queued_request 1
      (request (wait_and_start 1 new_tracker) 2) refl
