-- ===== src/Controller.antt =====
-- finsy/controller.py: the switches of a controller, and their control tasks.
-- A switch is an object with a name. A task is done before its callback runs, and the callback of
-- a task is run once.
pub mod Members
pub mod Counted
mod Examples
use finsy.Prelude.{
  ℕ, suc, Bool, true, false, ◌&&◌, ◌||◌, not, Option, none, some, List, [], ◌∷◌, ◌++◌, ◌==◌,
  if◌then◌else◌,
}
use finsy.Prelude.{Str, str_eq, Result, ok, err, Error, value_error, assertion_error, system_exit}
use finsy.Prelude.Int.{pos, eqb_ℤ}
use finsy.Futures.{Countdown, increment, decrement, is_over}
use finsy.Futures

pub record Switch : Type 0 where
  pub id : ℕ
  pub name : Str

-- A control task that is not done, and whether it was cancelled
pub record ControlTask : Type 0 where
  pub switch : ℕ
  pub is_cancelled : Bool

pub data Event : Type 0 where
  controller_enter controller_leave : ℕ → Event

pub record Controller : Type 0 where
  pub switches : List Switch
  pub pending_removal : List ℕ
  pub task_count : Countdown
  pub is_running : Bool
  pub tasks : List ControlTask
  -- the events emitted, the last first, and the switches whose removal is complete
  pub events : List Event
  pub removed : List ℕ

-- _switches.get(name)
unfoldable pub find_switch : Str → List Switch → Option Switch
find_switch name [] = none
find_switch name (s ∷ ss) = if str_eq s.name name then some s else find_switch name ss

abbrev pub empty_controller : Controller
empty_controller = record {
  switches = [];
  pending_removal = [];
  task_count = Futures.new.countdown;
  is_running = false;
  tasks = [];
  events = [];
  removed = [];
}

abbrev is_some : Option Switch → Bool
is_some none = false
is_some (some s) = true

-- Controller(switches)
insert_all : List Switch → List Switch → Result (List Switch)
insert_all known [] = ok known
insert_all known (s ∷ ss) =
    let rest = insert_all (known ++ (s ∷ [])) ss in
    if is_some (find_switch s.name known) then err value_error else rest

with_switches : Result (List Switch) → Result Controller
with_switches (ok ss) = ok (record empty_controller { switches = ss })
with_switches (err e) = err e

unfoldable pub create : List Switch → Result Controller
unfolding insert_all with_switches
create ss = with_switches (insert_all [] ss)

-- switch._control_task is not None
unfoldable pub has_task : ℕ → List ControlTask → Bool
has_task i [] = false
has_task i (t ∷ ts) = t.switch == i || has_task i ts

-- A method returns or raises, and leaves a state in both cases.
abbrev pub Step : Type 0
Step = Result (Unit {0}) × Controller

-- _start_switch
unfoldable pub start_switch : Switch → Controller → Step
start_switch s c = if has_task s.id c.tasks then (err assertion_error, c) else (
  ok tt,
  record c {
    events = controller_enter s.id ∷ c.events;
    tasks = record { switch = s.id; is_cancelled = false } ∷ c.tasks;
    task_count = increment c.task_count;
  },
)

cancel_task : ℕ → List ControlTask → List ControlTask
cancel_task i [] = []
cancel_task i (t ∷ ts) =
    (if t.switch == i then record t { is_cancelled = true } else t) ∷ cancel_task i ts

-- _stop_switch
unfoldable pub stop_switch : Switch → Controller → Controller
unfolding cancel_task
stop_switch s c = record c { tasks = cancel_task s.id c.tasks }

unfoldable pub add : Switch → Controller → Step
add s c =
    if is_some (find_switch s.name c.switches)
    then (err value_error, c)
    else (let added = record c { switches = c.switches ++ (s ∷ []) } in
        if c.is_running then start_switch s added else (ok tt, added))

unfoldable pub delete_switch : Str → List Switch → List Switch
delete_switch name [] = []
delete_switch name (s ∷ ss) = if str_eq s.name name then ss else s ∷ delete_switch name ss

-- `is not switch`
is_same : Switch → Option Switch → Bool
is_same s none = false
is_same s (some t) = t.id == s.id

remove_from : Switch → Controller → Controller
remove_from s c =
    if c.is_running
    then record (stop_switch s c) { pending_removal = s.id ∷ c.pending_removal }
    else record c { removed = s.id ∷ c.removed }

unfoldable pub remove : Switch → Controller → Step
unfolding is_same remove_from
remove s c =
    if is_same s (find_switch s.name c.switches)
    then (ok tt, remove_from s (record c { switches = delete_switch s.name c.switches }))
    else (err value_error, c)

contains : ℕ → List ℕ → Bool
contains i [] = false
contains i (j ∷ js) = j == i || contains i js

discard : ℕ → List ℕ → List ℕ
discard i [] = []
discard i (j ∷ js) = let rest = discard i js in if j == i then rest else j ∷ rest

-- _controller_leave, where the switch is to be removed
on_leave : ℕ → Controller → Controller
unfolding contains discard
on_leave i c =
    if contains i c.pending_removal
    then record c { pending_removal = discard i c.pending_removal; removed = i ∷ c.removed }
    else c

unfoldable pub remove_task : ℕ → List ControlTask → Option (List ControlTask)
remove_task i [] = none
remove_task i (t ∷ ts) =
    let rest = remove_task i ts in
    if t.switch == i then some ts else elim rest [ none ↦ none | some us ↦ some (t ∷ us) ]

-- The end of `_switch_done`: an exception ends the program.
exit_if : Bool → Step → Step
exit_if failed (ok _, c) = if failed then (err system_exit, c) else (ok tt, c)
exit_if failed (err e, c) = (err e, c)

leave : ℕ → List ControlTask → Controller → Controller
unfolding on_leave
leave i ts c = on_leave i (record c { tasks = ts; events = controller_leave i ∷ c.events })

-- _switch_done, for the task of switch `i`, which ended with an exception or not. There is no
-- callback without its task.
unfoldable pub switch_done : ℕ → Bool → Controller → Step
unfolding leave exit_if
switch_done i failed c = elim (remove_task i c.tasks) [
  | none ↦ (ok tt, c)
  | some ts ↦
      let left = leave i ts c in
      let (outcome, count) = decrement left.task_count in
      exit_if failed (outcome, record left { task_count = count })
]

-- An exception undoes the start of the controller and ends the loop.
or_stop : Step → Step → Step
or_stop (ok _, c) rest = rest
or_stop (err e, c) rest = (err e, record c { is_running = false })

start_all : List Switch → Controller → Step
unfolding or_stop
start_all [] c = (ok tt, c)
start_all (s ∷ ss) c =
    let rest = start_all ss (start_switch s c).1 in or_stop (start_switch s c) rest

is_none : List ℕ → Bool
is_none [] = true
is_none (i ∷ is) = false

-- __aenter__
unfoldable pub enter : Controller → Step
unfolding start_all is_none
enter c =
    if not c.is_running && (eqb_ℤ c.task_count.counter (pos 0) && is_none c.pending_removal)
    then start_all c.switches (record c { is_running = true })
    else (err assertion_error, c)

stop_all : List Switch → Controller → Controller
stop_all [] c = c
stop_all (s ∷ ss) c = stop_all ss (stop_switch s c)

-- __aexit__, up to the wait for the tasks, and after it
unfoldable pub begin_exit : Controller → Step
unfolding stop_all
begin_exit c = if c.is_running then (ok tt, stop_all c.switches c) else (err assertion_error, c)

unfoldable pub end_exit : Controller → Controller
end_exit c = record c { is_running = false }
