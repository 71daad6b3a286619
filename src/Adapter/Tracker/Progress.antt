-- ===== src/Adapter/Tracker/Progress.antt =====
-- authTracker: what a request that waits can rely on.
use authd.Prelude.{
  ℕ, ◌<◌, ◌≡◌, refl, Option, none, some, Option-cases, List, [], ◌∷◌, ◌++◌, arith, ◌⊎◌, inl, inr,
  length, subst,
}
use authd.Adapter.Tracker.{
  Waiter, waits, starts, Tracker, new_tracker, attempt, wait_and_start, signal, reset, Step,
  request, completion, cancellation, retest, wait, finish_cancel,
}

-- A run of requests and completions without cancellations.
pub data Requests : Tracker → Type 0 where
  fresh : Requests new_tracker
  requested : {t : Tracker} → Requests t → (cancel : ℕ) → Requests (wait_and_start cancel t)
  completed : {t : Tracker} → Requests t → Requests (reset t)
  retested :
      {t : Tracker}
      → Requests t
      → (before after : List Waiter) (w : Waiter) → t.woken ≡ before ++ w ∷ after
      → Requests (attempt w (record t { woken = before ++ after }))

-- Only requests are in the lists.
abbrev AllStart : List Waiter → Type 0
AllStart [] = Unit
AllStart (waits ∷ ws) = ⊥
AllStart (starts _ ∷ ws) = AllStart ws

AllStart-append : (xs ys : List Waiter) → AllStart xs → AllStart ys → AllStart (xs ++ ys)
AllStart-append [] ys hx hy = hy
AllStart-append (waits ∷ xs) ys hx hy = absurd hx
AllStart-append (starts n ∷ xs) ys hx hy = AllStart-append xs ys hx hy

AllStart-append_left : (xs ys : List Waiter) → AllStart (xs ++ ys) → AllStart xs
AllStart-append_left [] ys h = tt
AllStart-append_left (waits ∷ xs) ys h = absurd h
AllStart-append_left (starts n ∷ xs) ys h = AllStart-append_left xs ys h

AllStart-append_right : (xs ys : List Waiter) → AllStart (xs ++ ys) → AllStart ys
AllStart-append_right [] ys h = h
AllStart-append_right (waits ∷ xs) ys h = absurd h
AllStart-append_right (starts n ∷ xs) ys h = AllStart-append_right xs ys h

length-snoc_pos : (xs : List Waiter) (w : Waiter) → 0 < length (xs ++ w ∷ [])
length-snoc_pos [] w = omega arith
length-snoc_pos (x ∷ xs) w = omega arith

record IsLive (t : Tracker) : Type 0 where
  asleep : AllStart t.asleep
  woken : AllStart t.woken
  served : t.cancel_func ≡ none → 0 < length t.asleep → 0 < length t.woken

attempt-IsLive :
    (c : ℕ) (o : Option ℕ) (asleep woken : List Waiter)
    → AllStart asleep
    → AllStart woken
    → IsLive (attempt (starts c) (record { cancel_func = o; asleep = asleep; woken = woken }))
unfolding attempt
attempt-IsLive c none asleep woken a w = record { asleep = a; woken = w; served = λ e. cc }
attempt-IsLive c (some d) asleep woken a w = record {
  asleep = AllStart-append asleep (starts c ∷ []) a tt;
  woken = w;
  served = λ e. cc;
}

signal-IsLive :
    (asleep woken : List Waiter)
    → AllStart asleep
    → AllStart woken
    → IsLive (signal (record { cancel_func = none; asleep = asleep; woken = woken }))
unfolding signal
signal-IsLive [] woken a w = record { asleep = a; woken = w; served = λ e h. absurd (omega arith) }
signal-IsLive (waits ∷ ws) woken a w = absurd a
signal-IsLive (starts n ∷ ws) woken a w = record {
  asleep = a;
  woken = AllStart-append woken (starts n ∷ []) w tt;
  served = λ e h. length-snoc_pos woken (starts n);
}

Requests-IsLive : {t : Tracker} → Requests t → IsLive t
unfolding wait_and_start reset
Requests-IsLive fresh = record { asleep = tt; woken = tt; served = λ e h. absurd (omega arith) }
Requests-IsLive (requested {t} r c) =
    let l = Requests-IsLive r in attempt-IsLive c t.cancel_func t.asleep t.woken l.asleep l.woken
Requests-IsLive (completed {t} r) =
    let l = Requests-IsLive r in signal-IsLive t.asleep t.woken l.asleep l.woken
Requests-IsLive (retested {t} r before after waits e) =
    let l = Requests-IsLive r in
    absurd (AllStart-append_right before (waits ∷ after) (subst AllStart e l.woken))
Requests-IsLive (retested {t} r before after (starts n) e) =
    let l = Requests-IsLive r in
    let w = subst AllStart e l.woken in
    attempt-IsLive n t.cancel_func t.asleep (before ++ after) l.asleep (
      AllStart-append before after (AllStart-append_left before (starts n ∷ after) w)
        (AllStart-append_right before (starts n ∷ after) w))

-- a request that was woken, where its test lets it start
abbrev pub StartsNext : Tracker → Type 0
StartsNext t =
    (before after : List Waiter) × (c : ℕ) × (t.woken ≡ before ++ starts c ∷ after)
    × ((attempt (starts c) (record t { woken = before ++ after })).cancel_func ≡ some c)

starts_next :
    (t : Tracker) (woken : List Waiter)
    → t.woken ≡ woken
    → AllStart woken
    → 0 < length woken
    → t.cancel_func ≡ none
    → StartsNext t
unfolding attempt
starts_next t [] e a h n = absurd (omega arith)
starts_next t (waits ∷ ws) e a h n = absurd a
starts_next t (starts c ∷ ws) e a h n = ([], ws, c, e, rw n refl)

-- Where requests are made and completed and none is cancelled, in any interleaving: as long as a request
-- sleeps, either an authentication is in progress, or a request was woken that starts at its next test.
pub request_progress :
    {t : Tracker}
    → Requests t
    → 0 < length t.asleep
    → ((c : ℕ) × (t.cancel_func ≡ some c)) ⊎ StartsNext t
request_progress {t} r h = elim (Option-cases t.cancel_func) [
  | inr busy ↦ inl busy
  | inl idle ↦
      let l = Requests-IsLive r in inr (starts_next t t.woken refl l.woken (l.served idle h) idle)
]

-- An authentication in progress is ended by its completion alone: every other step, of any goroutine,
-- keeps its cancel function, so that no second authentication starts meanwhile.
pub one_authentication :
    (t u : Tracker) (c : ℕ)
    → Step t u
    → t.cancel_func ≡ some c
    → (u.cancel_func ≡ some c) ⊎ (u ≡ reset t)
unfolding wait_and_start finish_cancel wait attempt
one_authentication t _ c (request _ d) h = inl (ground arith)
one_authentication t _ c (cancellation _ none) h = inl h
one_authentication t _ c (cancellation _ (some d)) h = inl (ground arith)
one_authentication t _ c (completion _) h = inr refl
one_authentication t _ c (retest _ before after w e) h = inl (ground arith)
