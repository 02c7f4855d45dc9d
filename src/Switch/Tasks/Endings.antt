-- ===== src/Switch/Tasks/Endings.antt =====
-- Which tasks are cancelled, and when a failed task is counted.
use finsy.Prelude.{
  ℕ, ◌≡◌, refl, sym, ap, ◌∙◌, arith, Bool, true, false, List, [], ◌∷◌, ◌++◌, map, Str, codes,
}
use finsy.Prelude.{some, err, Result, fail_fast_error, if◌then◌else◌}
use mathlib.Core.Path.{ap₂}
use mathlib.Core.List.{append_assoc}
use finsy.Switch.Tasks.Count.{Steps, task_done-step}
use finsy.Switch.Tasks.{
  Task, SwitchTasks, create_task, remove_task, cancel_all, cancel_primary, cancel_if,
  cancel_foreground, Ending, after_ending, task_done, is_background, task_name, end_wait, new_task,
  new_tasks,
}

is_background-append : (s : Str) (c : ℕ) → is_background (s ++ (c ∷ [])) ≡ is_background (c ∷ [])
unfolding is_background
is_background-append [] c = refl
is_background-append (a ∷ []) c = refl
is_background-append (a ∷ b ∷ s) c = is_background-append (b ∷ s) c

amp : is_background (b'&' ∷ []) ≡ true
unfolding is_background
amp = refl

task_name-background : (switch name : Str) → is_background (task_name switch name true) ≡ true
unfolding task_name
task_name-background switch name =
    let flat : task_name switch name true
        ≡ (codes "fy:" ++ (switch ++ (codes "|" ++ name))) ++ (b'&' ∷ []) =
      sym (ap (λ s. codes "fy:" ++ s) (append_assoc switch (codes "|" ++ name) (b'&' ∷ []))) in
    rw flat (is_background-append (codes "fy:" ++ (switch ++ (codes "|" ++ name))) b'&' ∙ amp)

-- Cancelling the primary's tasks leaves a new background task as it is. Where the name of a new
-- task in the foreground does not end with "&", it is cancelled.
cancel_primary-create_task :
    (switch name : Str) (t : SwitchTasks)
    → is_background (task_name switch name false) ≡ false
    → ((cancel_primary (create_task switch name true t)).tasks
        ≡ new_task t.made (task_name switch name true) ∷ (cancel_primary t).tasks)
      × ((cancel_primary (create_task switch name false t)).tasks
          ≡ record (new_task t.made (task_name switch name false)) { is_cancelled = true }
            ∷ (cancel_primary t).tasks)
unfolding cancel_primary create_task cancel_foreground cancel_if
cancel_primary-create_task switch name t e =
    (rw (task_name-background switch name, cancel_foreground) refl, rw (e, cancel_foreground) refl)

-- What a cancellation does to a task
abbrev pub stop : Task → Task
stop task = if task.is_done then task else record task { is_cancelled = true }

cancel_if-stop : (t : Task) → cancel_if true t ≡ stop t
unfolding cancel_if
cancel_if-stop t = ground arith

map-stop : (ts : List Task) → map (cancel_if true) ts ≡ map stop ts
map-stop [] = refl
map-stop (t ∷ ts) = ap₂ ◌∷◌ (cancel_if-stop t) (map-stop ts)

-- In every state that a switch reaches, a task of the set that ends is removed. Where it has failed,
-- the other tasks that are not done are cancelled, and where the error was not UNAVAILABLE the
-- failure is counted, so with fail_fast the wait raises SwitchFailFastError.
pub task_done_lem :
    (fail_fast : Bool) (t : SwitchTasks) (i : ℕ) (outcome : Result (Unit {0})) {rest : List Task}
    → Steps (new_tasks fail_fast) t
    → remove_task i t.tasks ≡ some rest
    → ((task_done i Ending.finished t).1.tasks ≡ rest)
      × ((task_done i Ending.cancelled t).1.tasks ≡ rest)
      × ((task_done i Ending.unavailable t).1.tasks ≡ map stop rest)
      × ((task_done i Ending.unavailable t).1.fail_count ≡ t.fail_count)
      × ((task_done i Ending.failed t).1.tasks ≡ map stop rest)
      × (end_wait outcome (task_done i Ending.failed t).1
          ≡ (if t.fail_fast then err fail_fast_error else outcome))
unfolding after_ending cancel_all end_wait
task_done_lem fail_fast t i outcome {rest} s e =
    let step = λ (ending : Ending). ap (λ r. r.1) (task_done-step fail_fast t i ending s e) in
    (
      ap (λ u. u.tasks) (step Ending.finished),
      ap (λ u. u.tasks) (step Ending.cancelled),
      ap (λ u. u.tasks) (step Ending.unavailable) ∙ map-stop rest,
      ap (λ u. u.fail_count) (step Ending.unavailable),
      ap (λ u. u.tasks) (step Ending.failed) ∙ map-stop rest,
      ap (end_wait outcome) (step Ending.failed) ∙ ground arith,
    )
