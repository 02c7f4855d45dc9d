-- ===== src/Futures/Wakeup.antt =====
-- A countdown that is over wakes its waiter.
use finsy.Prelude.{
  ℕ, suc, ◌<◌, ◌≡◌, ◌⊎◌, inl, inr, refl, arith, Bool, true, false, Option, none, some,
}
use finsy.Prelude.{◌||◌, Bool-cases, ok, cancelled_error}
use finsy.Prelude.Int.{ℤ}
use finsy.Futures.{
  Countdown, FutureState, is_done, is_cancelled, is_over, create_future, increment, decrement,
  set_result, Phase, awaiting, returned, raised, Waiting, begin_wait, wait_cancelled, resume,
  cancel_waiter, Step, incremented, decremented, began, was_cancelled, resumed, Steps, start, then_,
  new, await_current, call_on_cancel,
}

abbrev pub is_finished : FutureState → Bool
is_finished FutureState.finished = true
is_finished _ = false

-- The countdown's future was made, and while the countdown runs it is not finished.
abbrev pub Active : Option ℕ → Countdown → Type 0
Active none c = is_over c ≡ true
Active (some i) c = (i < c.made) × (is_over c ≡ false → is_finished (c.states i) ≡ false)

-- A future that is awaited is done, or the countdown holds it and still runs.
abbrev pub Attended : Phase → Countdown → Type 0
Attended (awaiting i again late) c =
    (i < c.made) × ((is_done (c.states i) ≡ true) ⊎ ((c.future ≡ some i) × (is_over c ≡ false)))
Attended _ c = Unit

abbrev pub with_parts : Option ℕ → ℤ → (ℕ → FutureState) → ℕ → Countdown
with_parts f n states made = record { future = f; counter = n; states = states; made = made }

-- A future is held or awaited by a running countdown; both are so after a step.
abbrev pub IsSound : Phase → Countdown → Type 0
IsSound p c = Active c.future c × Attended p c

pub increment-IsSound :
    (p : Phase) (f : Option ℕ) (n : ℤ) (states : ℕ → FutureState) (made : ℕ)
    → IsSound p (with_parts f n states made)
    → IsSound p (increment (with_parts f n states made))
unfolding increment create_future
increment-IsSound (awaiting i again late) none n states made h = ground arith
increment-IsSound (awaiting i again late) (some j) n states made h = ground arith
increment-IsSound _ none n states made h = ground arith
increment-IsSound _ (some j) n states made h = ground arith

pub decrement-IsSound :
    (p : Phase) (f : Option ℕ) (n : ℤ) (states : ℕ → FutureState) (made : ℕ)
    → is_over (with_parts f n states made) ≡ false
    → IsSound p (with_parts f n states made)
    → IsSound p (decrement (with_parts f n states made)).1
unfolding decrement set_result
decrement-IsSound (awaiting i again late) none n states made r h = ground arith
decrement-IsSound (awaiting i again late) (some j) n states made r h = ground arith
decrement-IsSound _ none n states made r h = ground arith
decrement-IsSound _ (some j) n states made r h = ground arith

begin_wait-IsSound :
    (f : Option ℕ) (n : ℤ) (states : ℕ → FutureState) (made k : ℕ) (p : Phase)
    → IsSound p (with_parts f n states made)
    → let w =
        begin_wait
          (record { countdown = with_parts f n states made; phase = p; cancel_calls = k }) in
      IsSound w.phase w.countdown
unfolding begin_wait await_current
begin_wait-IsSound none n states made k p h = ground arith
begin_wait-IsSound (some j) n states made k p h = ground arith

cancel_waiter-IsSound :
    (f : Option ℕ) (n : ℤ) (states : ℕ → FutureState) (made k i : ℕ) (again late : Bool)
    → IsSound (awaiting i again late) (with_parts f n states made)
    → let w = cancel_waiter i again late (record {
      countdown = with_parts f n states made;
      phase = awaiting i again late;
      cancel_calls = k;
    }) in
      IsSound w.phase w.countdown
unfolding cancel_waiter
cancel_waiter-IsSound none n states made k i again late h = ground arith
cancel_waiter-IsSound (some j) n states made k i again late h = ground arith

wait_cancelled-IsSound :
    (f : Option ℕ) (n : ℤ) (states : ℕ → FutureState) (made k : ℕ) (p : Phase)
    → Active f (with_parts f n states made)
    → let w =
        wait_cancelled
          (record { countdown = with_parts f n states made; phase = p; cancel_calls = k }) in
      IsSound w.phase w.countdown
unfolding wait_cancelled create_future
wait_cancelled-IsSound none n states made k p h = ground arith
wait_cancelled-IsSound (some j) n states made k p h = ground arith

resume-IsSound :
    (i : ℕ) (again late : Bool) (w : Waiting)
    → Active w.countdown.future w.countdown
    → IsSound (resume i again late w).phase (resume i again late w).countdown
unfolding resume call_on_cancel
resume-IsSound i again late w h = elim (Bool-cases (late || is_cancelled (w.countdown.states i))) [
  | inl e ↦ rw (e, resume) (goes_on again)
  | inr e ↦ rw (e, resume) (h, ground arith)
]
  where
    goes_on :
        (b : Bool)
        → IsSound
            (wait_cancelled (call_on_cancel b w)).phase
            (wait_cancelled (call_on_cancel b w)).countdown
    goes_on true =
        let c = w.countdown in
        wait_cancelled-IsSound c.future c.counter c.states c.made w.cancel_calls w.phase h
    goes_on false =
        let c = w.countdown in
        wait_cancelled-IsSound c.future c.counter c.states c.made (suc w.cancel_calls) w.phase h

-- All that holds of a waiter that a program can reach
Step-IsSound :
    {w x : Waiting} → Step w x → IsSound w.phase w.countdown → IsSound x.phase x.countdown
unfolding cancel_waiter
Step-IsSound (incremented w) h =
    let c = w.countdown in increment-IsSound w.phase c.future c.counter c.states c.made h
Step-IsSound (decremented w r) h =
    let c = w.countdown in decrement-IsSound w.phase c.future c.counter c.states c.made r h
Step-IsSound (began w e) h =
    let c = w.countdown in
    begin_wait-IsSound c.future c.counter c.states c.made w.cancel_calls w.phase h
Step-IsSound (was_cancelled w i again late e) h =
    let c = w.countdown in
    cancel_waiter-IsSound c.future c.counter c.states c.made w.cancel_calls i again late (rw e at h)
Step-IsSound (resumed w i again late e d) h = resume-IsSound i again late w h.0

Steps-IsSound :
    {v w : Waiting} → Steps v w → IsSound v.phase v.countdown → IsSound w.phase w.countdown
Steps-IsSound (start w) h = h
Steps-IsSound (then_ s t) h = Step-IsSound t (Steps-IsSound s h)

abbrev pub IsEnded : Phase → Type 0
IsEnded p = (p ≡ returned) ⊎ (p ≡ raised cancelled_error)

resume-IsEnded :
    (w : Waiting) (i : ℕ) (again late : Bool)
    → is_over w.countdown ≡ true
    → IsEnded (resume i again late w).phase
unfolding resume call_on_cancel wait_cancelled
resume-IsEnded w i true late h = ground arith
resume-IsEnded w i false late h = ground arith

pub running-decrement :
    (f : Option ℕ) (n : ℤ) (states : ℕ → FutureState) (made : ℕ)
    → Active f (with_parts f n states made)
    → is_over (with_parts f n states made) ≡ false
    → (decrement (with_parts f n states made)).0 ≡ ok tt
unfolding decrement set_result
running-decrement none n states made a r = ground arith
running-decrement (some j) n states made a r = ground arith

-- In every state that a program reaches in which each decrement has an increment before it, a
-- decrement of a running countdown does not fail.
decrement_total :
    (w : Waiting) → Steps new w → is_over w.countdown ≡ false → (decrement w.countdown).0 ≡ ok tt
decrement_total w s running =
    let c = w.countdown in
    running-decrement c.future c.counter c.states c.made (Steps-IsSound s (refl, tt)).0 running

-- In every such state, where the countdown is over and the waiter awaits a future, that future is
-- done, and the waiter, once it goes on, has returned or raised CancelledError.
pub countdown_wakes :
    (w : Waiting) (i : ℕ) (again late : Bool)
    → Steps new w
    → w.phase ≡ awaiting i again late
    → is_over w.countdown ≡ true
    → (is_done (w.countdown.states i) ≡ true) × IsEnded (resume i again late w).phase
countdown_wakes w i again late s e over =
    let attended = (Steps-IsSound s (refl, tt)).1 in
    (ground (arith, rw e at attended), resume-IsEnded w i again late over)
