-- ===== src/Switch/Tasks.antt =====
-- finsy/switch.py: SwitchTasks, the tasks that belong to a switch and their countdown.
-- A task is done before its callback `_task_done` runs; until then it stays in the set.
pub mod Count
pub mod Endings
mod Examples
use finsy.Prelude.{
  ℕ, suc, Bool, true, false, ◌&&◌, not, Option, none, some, List, [], ◌∷◌, ◌++◌, map, ◌==◌,
  if◌then◌else◌,
}
use finsy.Prelude.{ltb, Str, codes, Result, ok, err, Error, key_error, fail_fast_error}
use finsy.Futures.{Countdown, increment, decrement}
use finsy.Futures

pub record Task : Type 0 where
  pub id : ℕ
  pub name : Str
  pub is_done : Bool
  -- whether Task.cancel was called
  pub is_cancelled : Bool

pub record SwitchTasks : Type 0 where
  pub tasks : List Task
  pub task_count : Countdown
  pub fail_fast : Bool
  pub fail_count : ℕ
  -- the tasks that the loop has made
  pub made : ℕ

-- SwitchTasks(fail_fast)
abbrev pub new_tasks : Bool → SwitchTasks
new_tasks fail_fast = record {
  tasks = [];
  task_count = Futures.new.countdown;
  fail_fast = fail_fast;
  fail_count = 0;
  made = 0;
}

-- f"fy:{switch.name}|{name}{bg_char}"
unfoldable pub task_name : Str → Str → Bool → Str
task_name switch name background =
    codes "fy:" ++ (switch ++ (codes "|" ++ (name ++ (if background then codes "&" else []))))

abbrev new_task : ℕ → Str → Task
new_task id name = record { id = id; name = name; is_done = false; is_cancelled = false }

unfoldable pub create_task : Str → Str → Bool → SwitchTasks → SwitchTasks
create_task switch name background t = record t {
  tasks = new_task t.made (task_name switch name background) ∷ t.tasks;
  task_count = increment t.task_count;
  made = suc t.made;
}

-- set.remove, which is a KeyError where there is none
with_task : Task → Option (List Task) → Option (List Task)
with_task t none = none
with_task t (some ts) = some (t ∷ ts)

unfoldable pub remove_task : ℕ → List Task → Option (List Task)
unfolding with_task
remove_task i [] = none
remove_task i (t ∷ ts) =
    let rest = remove_task i ts in if t.id == i then some ts else with_task t rest

cancel_if : Bool → Task → Task
cancel_if b t = if b && not t.is_done then record t { is_cancelled = true } else t

unfoldable pub cancel_all : SwitchTasks → SwitchTasks
unfolding cancel_if
cancel_all t = record t { tasks = map (cancel_if true) t.tasks }

-- task.get_name().endswith("&")
unfoldable pub is_background : Str → Bool
is_background [] = false
is_background (c ∷ []) = c == b'&'
is_background (c ∷ d ∷ s) = is_background (d ∷ s)

unfoldable pub cancel_foreground : Task → Task
unfolding cancel_if
cancel_foreground task = cancel_if (not (is_background task.name)) task

unfoldable pub cancel_primary : SwitchTasks → SwitchTasks
cancel_primary t = record t { tasks = map cancel_foreground t.tasks }

-- How a task ended: with a value, cancelled, or with an exception, which may be UNAVAILABLE.
pub data Ending : Type 0 where
  finished cancelled unavailable failed : Ending

unfoldable pub after_ending : Ending → SwitchTasks → SwitchTasks
after_ending Ending.finished t = t
after_ending Ending.cancelled t = t
after_ending Ending.unavailable t = cancel_all t
after_ending Ending.failed t = record (cancel_all t) { fail_count = suc t.fail_count }

abbrev with_count : Countdown → SwitchTasks → SwitchTasks
with_count c t = record t { task_count = c }

count_ending :
    Ending → Result (Unit {0}) × Countdown → SwitchTasks → Result (Unit {0}) × SwitchTasks
count_ending ending (ok _, c) t = (ok tt, after_ending ending (with_count c t))
count_ending ending (err e, c) t = (err e, with_count c t)

-- _task_done
unfoldable pub task_done : ℕ → Ending → SwitchTasks → Result (Unit {0}) × SwitchTasks
unfolding count_ending
task_done i ending t = elim (remove_task i t.tasks) [
  | none ↦ (err key_error, t)
  | some ts ↦ count_ending ending (decrement t.task_count) (record t { tasks = ts })
]

-- `wait`, where the wait for the countdown has ended with `outcome`
unfoldable pub end_wait : Result (Unit {0}) → SwitchTasks → Result (Unit {0})
end_wait outcome t = if t.fail_fast && ltb 0 t.fail_count then err fail_fast_error else outcome
