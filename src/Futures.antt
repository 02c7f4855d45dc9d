-- ===== src/Futures.antt =====
-- finsy/futures.py: a countdown that one task waits for.
-- The loop's futures are a store from their numbers to their states, since a waiter may hold
-- another future than the countdown does.
pub mod Wakeup
pub mod Cancel
mod Examples
use finsy.Prelude.{
  ℕ, suc, ◌≡◌, Bool, true, false, ◌&&◌, ◌||◌, not, Option, none, some, ◌==◌, if◌then◌else◌,
}
use finsy.Prelude.{Result, ok, err, Error, assertion_error, invalid_state_error, cancelled_error}
use finsy.Prelude.Int.{ℤ, pos, negsuc, succ_ℤ, pred_ℤ, leb_ℤ}

pub data FutureState : Type 0 where
  pending finished cancelled : FutureState

abbrev pub is_done : FutureState → Bool
is_done FutureState.pending = false
is_done _ = true

abbrev pub is_cancelled : FutureState → Bool
is_cancelled FutureState.cancelled = true
is_cancelled _ = false

-- The countdown, with the store and the number of the futures made
pub record Countdown : Type 0 where
  pub future : Option ℕ
  pub counter : ℤ
  pub states : ℕ → FutureState
  pub made : ℕ

abbrev pub put_state : ℕ → FutureState → Countdown → Countdown
put_state i state c = record c { states = λ j. if j == i then state else c.states j }

-- self._future = _create_future()
unfoldable pub create_future : Countdown → Countdown
create_future c = record (put_state c.made FutureState.pending c) {
  future = some c.made;
  made = suc c.made;
}

abbrev needs_future : Option ℕ → Countdown → Bool
needs_future none c = true
needs_future (some i) c = is_done (c.states i)

abbrev add_one : Countdown → Countdown
add_one c = record c { counter = succ_ℤ c.counter }

unfoldable pub increment : Countdown → Countdown
increment c = add_one (if needs_future c.future c then create_future c else c)

-- Future.set_result
unfoldable pub set_result : ℕ → Countdown → Result (Unit {0}) × Countdown
set_result i c =
    if is_done (c.states i)
    then (err invalid_state_error, c)
    else (ok tt, put_state i FutureState.finished c)

abbrev pub is_over : Countdown → Bool
is_over c = leb_ℤ c.counter (pos 0)

count_down : ℕ → Countdown → Result (Unit {0}) × Countdown
count_down i c = if is_over c && not (is_cancelled (c.states i)) then set_result i c else (ok tt, c)

unfoldable pub decrement : Countdown → Result (Unit {0}) × Countdown
unfolding count_down
decrement c = elim c.future [
  | none ↦ (err assertion_error, c)
  | some i ↦ count_down i (record c { counter = pred_ℤ c.counter })
]

-- Where a task that calls `wait` stands. `awaiting` has the future, whether it is in
-- `_wait_cancelled`, and whether the task was cancelled after the future was done.
pub data Phase : Type 0 where
  not_begun : Phase
  awaiting : ℕ → Bool → Bool → Phase
  returned : Phase
  raised : Error → Phase

-- The countdown, the waiter, and how often `on_cancel` was called
pub record Waiting : Type 0 where
  pub countdown : Countdown
  pub phase : Phase
  pub cancel_calls : ℕ

abbrev go_to : Phase → Waiting → Waiting
go_to phase w = record w { phase = phase }

await_current : Option ℕ → Waiting → Waiting
await_current none w = go_to (raised assertion_error) w
await_current (some i) w = go_to (awaiting i false false) w

-- `wait`, up to its first `await`
unfoldable pub begin_wait : Waiting → Waiting
unfolding await_current
begin_wait w = if is_over w.countdown then go_to returned w else await_current w.countdown.future w

-- The head of the loop of `_wait_cancelled`. After it CancelledError is raised again.
unfoldable pub wait_cancelled : Waiting → Waiting
wait_cancelled w = if is_over w.countdown then go_to (raised cancelled_error) w else record w {
  countdown = create_future w.countdown;
  phase = awaiting w.countdown.made true false;
}

call_on_cancel : Bool → Waiting → Waiting
call_on_cancel true w = w
call_on_cancel false w = record w { cancel_calls = suc w.cancel_calls }

-- The task goes on, when future `i` is done.
unfoldable pub resume : ℕ → Bool → Bool → Waiting → Waiting
unfolding call_on_cancel
resume i again late w =
    if late || is_cancelled (w.countdown.states i)
    then wait_cancelled (call_on_cancel again w)
    else go_to (if again then raised cancelled_error else returned) w

-- Task.cancel cancels the future that the task awaits, or is remembered if that is done.
unfoldable pub cancel_waiter : ℕ → Bool → Bool → Waiting → Waiting
cancel_waiter i again late w =
    if is_done (w.countdown.states i) then go_to (awaiting i again true) w else record w {
      countdown = put_state i FutureState.cancelled w.countdown;
      phase = awaiting i again late;
    }

-- What may happen next. Every decrement has an increment before it.
pub data Step : Waiting → Waiting → Type 0 where
  incremented : (w : Waiting) → Step w (record w { countdown = increment w.countdown })
  decremented :
      (w : Waiting)
      → is_over w.countdown ≡ false
      → Step w (record w { countdown = (decrement w.countdown).1 })
  began : (w : Waiting) → w.phase ≡ not_begun → Step w (begin_wait w)
  was_cancelled :
      (w : Waiting) (i : ℕ) (again late : Bool)
      → w.phase ≡ awaiting i again late
      → Step w (cancel_waiter i again late w)
  resumed :
      (w : Waiting) (i : ℕ) (again late : Bool)
      → w.phase ≡ awaiting i again late
      → is_done (w.countdown.states i) ≡ true
      → Step w (resume i again late w)

pub data Steps : Waiting → Waiting → Type 0 where
  start : (w : Waiting) → Steps w w
  then_ : {v w x : Waiting} → Steps v w → Step w x → Steps v x

abbrev pub new : Waiting
new = record {
  countdown = record {
    future = none;
    counter = pos 0;
    states = λ _. FutureState.pending;
    made = 0;
  };
  phase = not_begun;
  cancel_calls = 0;
}
