-- ===== src/Futures/Cancel.antt =====
-- How often a waiter calls `on_cancel`.
use finsy.Prelude.{
  ℕ, suc, ◌≡◌, refl, ap, ◌∙◌, inl, inr, arith, Bool, true, false, Option, none, some, Bool-cases,
  ◌||◌,
}
use finsy.Prelude.{cancelled_error}
use finsy.Futures.{
  is_done, is_cancelled, Phase, not_begun, awaiting, returned, raised, Waiting, begin_wait,
  wait_cancelled, resume, cancel_waiter, Step, incremented, decremented, began, was_cancelled,
  resumed, Steps, start, then_, new, await_current, call_on_cancel,
}

-- Once in `_wait_cancelled` and after it, and else never
abbrev pub cancel_calls_in : Phase → ℕ
cancel_calls_in not_begun = 0
cancel_calls_in (awaiting i false late) = 0
cancel_calls_in (awaiting i true late) = 1
cancel_calls_in returned = 0
cancel_calls_in (raised cancelled_error) = 1
cancel_calls_in (raised _) = 0

abbrev pub IsCounted : Waiting → Type 0
IsCounted w = w.cancel_calls ≡ cancel_calls_in w.phase

begin_wait-IsCounted :
    (w : Waiting) (f : Option ℕ)
    → w.countdown.future ≡ f
    → w.phase ≡ not_begun
    → IsCounted w
    → IsCounted (begin_wait w)
unfolding begin_wait await_current
begin_wait-IsCounted w none e p h = ground arith
begin_wait-IsCounted w (some i) e p h = ground arith

wait_cancelled-IsCounted : (w : Waiting) → w.cancel_calls ≡ 1 → IsCounted (wait_cancelled w)
unfolding wait_cancelled
wait_cancelled-IsCounted w h = ground arith

resume-IsCounted :
    (w : Waiting) (i : ℕ) (again late : Bool)
    → w.phase ≡ awaiting i again late
    → IsCounted w
    → IsCounted (resume i again late w)
unfolding resume call_on_cancel
resume-IsCounted w i true late e h =
    let one : w.cancel_calls ≡ 1 = h ∙ ap cancel_calls_in e in
    elim (Bool-cases (late || is_cancelled (w.countdown.states i))) [
      | inl c ↦ rw (c, resume) (wait_cancelled-IsCounted w one)
      | inr c ↦ rw (c, resume) one
    ]
resume-IsCounted w i false late e h =
    let none_yet : w.cancel_calls ≡ 0 = h ∙ ap cancel_calls_in e in
    elim (Bool-cases (late || is_cancelled (w.countdown.states i))) [
      | inl c ↦ rw (c, resume) (wait_cancelled-IsCounted _ (ap suc none_yet))
      | inr c ↦ rw (c, resume) none_yet
    ]

late_or_not :
    (i : ℕ) (again late : Bool)
    → cancel_calls_in (awaiting i again late) ≡ cancel_calls_in (awaiting i again true)
late_or_not i true late = refl
late_or_not i false late = refl

cancel_waiter-IsCounted :
    (w : Waiting) (i : ℕ) (again late : Bool)
    → w.phase ≡ awaiting i again late
    → IsCounted w
    → IsCounted (cancel_waiter i again late w)
unfolding cancel_waiter
cancel_waiter-IsCounted w i again late e h =
    let same = h ∙ ap cancel_calls_in e in
    elim (Bool-cases (is_done (w.countdown.states i))) [
      | inl c ↦ rw (c, cancel_waiter) (same ∙ late_or_not i again late)
      | inr c ↦ rw (c, cancel_waiter) same
    ]

Step-IsCounted : {w x : Waiting} → Step w x → IsCounted w → IsCounted x
Step-IsCounted (incremented w) h = h
Step-IsCounted (decremented w r) h = h
Step-IsCounted (began w e) h = begin_wait-IsCounted w _ refl e h
Step-IsCounted (was_cancelled w i again late e) h = cancel_waiter-IsCounted w i again late e h
Step-IsCounted (resumed w i again late e d) h = resume-IsCounted w i again late e h

-- In every state that a program reaches, `on_cancel` was called once where the waiter is in
-- `_wait_cancelled` or has raised CancelledError, and else it was not called.
pub cancel_called_once : (w : Waiting) → Steps new w → w.cancel_calls ≡ cancel_calls_in w.phase
cancel_called_once w s = counted s refl
  where
    counted : {v x : Waiting} → Steps v x → IsCounted v → IsCounted x
    counted (start x) h = h
    counted (then_ s t) h = Step-IsCounted t (counted s h)
