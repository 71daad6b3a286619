-- ===== src/Adapter/Tracker/LostWakeup.antt =====
-- authTracker: the one goroutine that reset signals, where it is that of a cancellation.
use authd.Prelude.{
  ℕ, ◌≡◌, refl, none, some, List, [], ◌∷◌, ◌++◌, ◌⊎◌, inl, inr, arith, sym, ◌∙◌, ◌≢◌,
}
use authd.Adapter.Tracker.{
  Waiter, waits, Tracker, attempt, wait, wait_and_start, signal, reset, finish_cancel, Step,
  request, cancellation, completion, retest, Reach, here, next,
}

-- Nothing is in progress and no goroutine was woken, but these sleep.
pub record IsStuck (t : Tracker) (sleepers : List Waiter) : Type 0 where
  pub idle : t.cancel_func ≡ none
  pub unsignalled : t.woken ≡ []
  pub sleeping : t.asleep ≡ sleepers

reset_wakes :
    (t : Tracker) (w : Waiter) (behind : List Waiter)
    → t.asleep ≡ w ∷ behind
    → t.woken ≡ []
    → reset t ≡ record { cancel_func = none; asleep = behind; woken = w ∷ [] }
unfolding reset signal
reset_wakes t w behind a e = ground arith

-- the tracker after the completion and the next test of the cancellation that it woke
abbrev pub left_behind : Tracker → Tracker
left_behind t = attempt waits (record (reset t) { woken = [] })

stuck :
    (t : Tracker) (behind : List Waiter)
    → t.asleep ≡ waits ∷ behind
    → t.woken ≡ []
    → IsStuck (left_behind t) behind
unfolding attempt
stuck t behind a w =
    rw (reset_wakes t waits behind a w)
      (record { idle = refl; unsignalled = refl; sleeping = refl })

none_among : (before : List Waiter) (w : Waiter) (after : List Waiter) → [] ≢ before ++ w ∷ after
none_among [] w after e = cc
none_among (x ∷ before) w after e = cc

-- what can happen to a stuck tracker
stuck_steps :
    (u v : Tracker) (behind : List Waiter)
    → IsStuck u behind
    → Step u v
    → (v ≡ u) ⊎ (((c : ℕ) × (v ≡ wait_and_start c u)) ⊎ (v ≡ reset u))
unfolding finish_cancel wait attempt
stuck_steps u _ behind s (request _ c) = inr (inl (c, refl))
stuck_steps u _ behind s (cancellation _ none) = inl refl
stuck_steps u _ behind s (cancellation _ (some c)) = inl (rw s.idle refl)
stuck_steps u _ behind s (completion _) = inr (inr refl)
stuck_steps u _ behind s (retest _ before after w e) =
    absurd (none_among before w after (sym s.unsignalled ∙ e))

-- Where a cancellation sleeps longest and no woken goroutine has still to test: the end of the
-- authentication, followed by the next test of that cancellation, is a run after which the goroutines
-- behind it sleep, with no authentication in progress and nobody woken; and the step that follows, if it
-- is neither a new request nor a further end of an authentication, changes nothing.
pub lost_wakeup :
    (t v : Tracker) (behind : List Waiter)
    → t.asleep ≡ waits ∷ behind
    → t.woken ≡ []
    → Step (left_behind t) v
    → Reach t (left_behind t)
      × IsStuck (left_behind t) behind
      × ((v ≡ left_behind t)
          ⊎ (((c : ℕ) × (v ≡ wait_and_start c (left_behind t))) ⊎ (v ≡ reset (left_behind t))))
lost_wakeup t v behind a w s =
    let e = reset_wakes t waits behind a w in
    let woken : (reset t).woken ≡ [] ++ waits ∷ [] = rw e refl in
    (
      next (next here (completion t)) (retest (reset t) [] [] waits woken),
      stuck t behind a w,
      stuck_steps (left_behind t) v behind (stuck t behind a w) s,
    )
