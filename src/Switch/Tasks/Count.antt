-- ===== src/Switch/Tasks/Count.antt =====
-- The countdown of a switch counts its tasks.
use finsy.Prelude.{
  length-map, ℕ, suc, ◌≡◌, inl, inr, refl, ap, ◌∙◌, sym, arith, Bool, false, Option, none, some,
}
use finsy.Prelude.{Option-cases, List, [], ◌∷◌, length, ok, err, Result, Str}
use finsy.Prelude.Int.{ℤ, pos}
use finsy.Futures.{
  returned, Countdown, increment, decrement, is_over, create_future, set_result, FutureState,
}
use finsy.Futures.Wakeup.{
  Active, with_parts, increment-IsSound, decrement-IsSound, running-decrement,
}
use finsy.Switch.Tasks.{
  Task, SwitchTasks, new_tasks, create_task, remove_task, cancel_all, cancel_primary, Ending,
  after_ending, task_done, count_ending, with_task,
}

-- The countdown stands at the number of tasks, and its future is in order.
abbrev pub IsCounted : SwitchTasks → Type 0
IsCounted t =
    (t.task_count.counter ≡ pos (length t.tasks)) × Active t.task_count.future t.task_count

pub increment-counter :
    (f : Option ℕ) (z : ℤ) (states : ℕ → FutureState) (made n : ℕ)
    → z ≡ pos n
    → (increment (with_parts f z states made)).counter ≡ pos (suc n)
unfolding increment create_future
increment-counter none z states made n h = ground arith
increment-counter (some j) z states made n h = ground arith

pub decrement-counter :
    (f : Option ℕ) (z : ℤ) (states : ℕ → FutureState) (made n : ℕ)
    → z ≡ pos (suc n)
    → Active f (with_parts f z states made)
    → (decrement (with_parts f z states made)).1.counter ≡ pos n
unfolding decrement set_result
decrement-counter none z states made n h a = ground arith
decrement-counter (some j) z states made n h a = ground arith

remove_task-length :
    (i : ℕ) (ts : List Task) {rest : List Task}
    → remove_task i ts ≡ some rest
    → length ts ≡ suc (length rest)
unfolding remove_task with_task
remove_task-length i [] h = cc
remove_task-length i (t ∷ ts) {rest} h =
    let ih = λ (r : List Task) (e : remove_task i ts ≡ some r). remove_task-length i ts e in
    elim (Option-cases (remove_task i ts)) [
      | inl e ↦ ground arith
      | inr (r, e) ↦ ground (arith, ih r e)
    ]

-- What may happen to the tasks
pub data Step : SwitchTasks → SwitchTasks → Type 0 where
  created :
      (t : SwitchTasks) (switch name : Str) (background : Bool)
      → Step t (create_task switch name background t)
  ended :
      (t : SwitchTasks) (i : ℕ) (ending : Ending) {rest : List Task}
      → remove_task i t.tasks ≡ some rest
      → Step t (task_done i ending t).1
  -- A step of the waiter keeps the counter, and the countdown in order.
  waited :
      (t : SwitchTasks) (c : Countdown)
      → c.counter ≡ t.task_count.counter
      → Active c.future c
      → Step t (record t { task_count = c })
  all_cancelled : (t : SwitchTasks) → Step t (cancel_all t)
  primary_cancelled : (t : SwitchTasks) → Step t (cancel_primary t)

pub data Steps : SwitchTasks → SwitchTasks → Type 0 where
  start : (t : SwitchTasks) → Steps t t
  then_ : {t u v : SwitchTasks} → Steps t u → Step u v → Steps t v

after_ending-parts :
    (ending : Ending) (t : SwitchTasks)
    → (length (after_ending ending t).tasks ≡ length t.tasks)
      × ((after_ending ending t).task_count ≡ t.task_count)
unfolding after_ending cancel_all
after_ending-parts Ending.finished t = (refl, refl)
after_ending-parts Ending.cancelled t = (refl, refl)
after_ending-parts Ending.unavailable t = (length-map _ t.tasks, refl)
after_ending-parts Ending.failed t = (length-map _ t.tasks, refl)

pub running : (c : Countdown) (n : ℕ) → c.counter ≡ pos (suc n) → is_over c ≡ false
running c n h = ground arith

count_ending-ok :
    (ending : Ending) (r : Result (Unit {0}) × Countdown) (t : SwitchTasks)
    → r.0 ≡ ok tt
    → count_ending ending r t ≡ (ok tt, after_ending ending (record t { task_count = r.1 }))
unfolding count_ending
count_ending-ok ending (ok tt, c) t h = refl
count_ending-ok ending (err e, c) t h = cc

task_done-removed :
    (i : ℕ) (ending : Ending) (t : SwitchTasks) {rest : List Task}
    → remove_task i t.tasks ≡ some rest
    → IsCounted t
    → task_done i ending t ≡ (
      ok tt,
      after_ending ending (record t { tasks = rest; task_count = (decrement t.task_count).1 }),
    )
unfolding task_done
task_done-removed i ending t {rest} e (count, active) =
    let c = t.task_count in
    let more = count ∙ ap pos (remove_task-length i t.tasks e) in
    let fine = running-decrement c.future c.counter c.states c.made active (running c _ more) in
    rw (e, task_done) (count_ending-ok ending (decrement c) (record t { tasks = rest }) fine)

task_done-parts :
    (i : ℕ) (ending : Ending) (t : SwitchTasks) {rest : List Task}
    → remove_task i t.tasks ≡ some rest
    → IsCounted t
    → ((task_done i ending t).0 ≡ ok tt) × IsCounted (task_done i ending t).1
task_done-parts i ending t {rest} e (count, active) =
    let c = t.task_count in
    let more = count ∙ ap pos (remove_task-length i t.tasks e) in
    let sound =
      decrement-IsSound returned c.future c.counter c.states c.made (running c _ more)
        (active, tt) in
    let less = decrement-counter c.future c.counter c.states c.made _ more active in
    let (same_length, same_count) =
      after_ending-parts ending (record t { tasks = rest; task_count = (decrement c).1 }) in
    rw (task_done-removed i ending t e (count, active))
      (refl, rw (same_length, same_count) (less, sound.0))

create_task-IsCounted :
    (switch name : Str) (background : Bool) (t : SwitchTasks)
    → IsCounted t
    → IsCounted (create_task switch name background t)
unfolding create_task
create_task-IsCounted switch name background t (count, active) =
    let c = t.task_count in
    (
      increment-counter c.future c.counter c.states c.made _ count,
      (increment-IsSound returned c.future c.counter c.states c.made (active, tt)).0,
    )

Step-IsCounted : {t u : SwitchTasks} → Step t u → IsCounted t → IsCounted u
unfolding cancel_all cancel_primary
Step-IsCounted (created t switch name background) h =
    create_task-IsCounted switch name background t h
Step-IsCounted (ended t i ending e) h = (task_done-parts i ending t e h).1
Step-IsCounted (waited t c same active) h = (same ∙ h.0, active)
Step-IsCounted (all_cancelled t) h = (h.0 ∙ ap pos (sym (length-map _ t.tasks)), h.1)
Step-IsCounted (primary_cancelled t) h = (h.0 ∙ ap pos (sym (length-map _ t.tasks)), h.1)

Steps-IsCounted : {t u : SwitchTasks} → Steps t u → IsCounted t → IsCounted u
Steps-IsCounted (start t) h = h
Steps-IsCounted (then_ s u) h = Step-IsCounted u (Steps-IsCounted s h)

-- In every state that a switch reaches, the countdown stands at the number of its tasks.
pub tasks_counted :
    (fail_fast : Bool) (t : SwitchTasks)
    → Steps (new_tasks fail_fast) t
    → t.task_count.counter ≡ pos (length t.tasks)
tasks_counted fail_fast t s = (Steps-IsCounted s (refl, refl)).0

-- In every state that a switch reaches, the callback of a task in the set does not fail, and the
-- countdown then stands at the number of the tasks that are left.
task_done_total :
    (fail_fast : Bool) (t : SwitchTasks) (i : ℕ) (ending : Ending) {rest : List Task}
    → Steps (new_tasks fail_fast) t
    → remove_task i t.tasks ≡ some rest
    → ((task_done i ending t).0 ≡ ok tt)
      × ((task_done i ending t).1.task_count.counter ≡ pos (length (task_done i ending t).1.tasks))
task_done_total fail_fast t i ending s e =
    let (fine, counted) = task_done-parts i ending t e (Steps-IsCounted s (refl, refl)) in
    (fine, counted.0)

pub task_done-step :
    (fail_fast : Bool) (t : SwitchTasks) (i : ℕ) (ending : Ending) {rest : List Task}
    → Steps (new_tasks fail_fast) t
    → remove_task i t.tasks ≡ some rest
    → task_done i ending t ≡ (
      ok tt,
      after_ending ending (record t { tasks = rest; task_count = (decrement t.task_count).1 }),
    )
task_done-step fail_fast t i ending s e =
    task_done-removed i ending t e (Steps-IsCounted s (refl, refl))
