-- ===== src/Adapter/Tracker.antt =====
-- authTracker of pam/internal/adapter/authentication.go: the lock around one authentication, with its
-- condition variable. What is done with the lock held is one step; sync.Cond wakes the goroutine that
-- sleeps longest, and that goroutine tests again some time later.
pub mod Progress
pub mod LostWakeup
mod Examples
use authd.Prelude.{
  ℕ, ◌≡◌, Bool, true, false, Option, none, some, List, [], ◌∷◌, ◌++◌, if◌then◌else◌,
}

-- A goroutine in the loop of wait, or in that of waitAndStart with its cancel function.
pub data Waiter : Type 0 where
  waits : Waiter
  starts : ℕ → Waiter

-- The field cancelFunc, by the request that it belongs to; the goroutines that sleep in cond.Wait, the
-- oldest first; and those that were woken and have not tested again.
pub record Tracker : Type 0 where
  pub cancel_func : Option ℕ
  pub asleep : List Waiter
  pub woken : List Waiter

abbrev pub new_tracker : Tracker
new_tracker = record { cancel_func = none; asleep = []; woken = [] }

-- what follows the loop
abbrev pub leave_loop : Waiter → Tracker → Tracker
leave_loop waits t = t
leave_loop (starts cancel) t = record t { cancel_func = some cancel }

-- one test of `for at.cancelFunc != nil { at.cond.Wait() }`
unfoldable pub attempt : Waiter → Tracker → Tracker
attempt w t = elim t.cancel_func [
  | none ↦ leave_loop w t
  | some _ ↦ record t { asleep = t.asleep ++ w ∷ [] }
]

unfoldable pub wait : Tracker → Tracker
unfolding attempt
wait = attempt waits

unfoldable pub wait_and_start : ℕ → Tracker → Tracker
unfolding attempt
wait_and_start cancel = attempt (starts cancel)

-- cond.Signal
unfoldable pub signal : Tracker → Tracker
signal t = elim t.asleep [ [] ↦ t | w ∷ ws ↦ record t { asleep = ws; woken = t.woken ++ w ∷ [] } ]

unfoldable pub reset : Tracker → Tracker
unfolding signal
reset t = signal (record t { cancel_func = none })

-- The cancel function that cancelAndWait calls before it waits; without one it returns at once.
unfoldable pub cancel_target : Tracker → Option ℕ
cancel_target t = t.cancel_func

-- cancelAndWait from the moment that the cancel function, if there was one, has returned.
unfoldable pub finish_cancel : Option ℕ → Tracker → Tracker
unfolding wait
finish_cancel none t = t
finish_cancel (some _) t = wait t

-- What the goroutines do, in any order: a request, a cancellation that found a request, the end of the
-- authentication, and the next test of a goroutine that was woken.
pub data Step : Tracker → Tracker → Type 0 where
  request : (t : Tracker) (cancel : ℕ) → Step t (wait_and_start cancel t)
  cancellation : (t : Tracker) (target : Option ℕ) → Step t (finish_cancel target t)
  completion : (t : Tracker) → Step t (reset t)
  retest :
      (t : Tracker) (before after : List Waiter) (w : Waiter)
      → t.woken ≡ before ++ w ∷ after
      → Step t (attempt w (record t { woken = before ++ after }))

pub data Reach (start : Tracker) : Tracker → Type 0 where
  here : Reach start start
  next : {t u : Tracker} → Reach start t → Step t u → Reach start u
