-- ===== src/Controller/Counted.antt =====
-- The countdown of a controller counts its control tasks.
use finsy.Prelude.{
  ℕ, suc, ◌≡◌, refl, ap, ◌∙◌, sym, arith, Bool, true, false, some, Option-cases, Bool-cases, inl,
  inr, List, [], ◌∷◌, ◌++◌,
}
use finsy.Prelude.{length, ok, err, ◌&&◌, not, if◌then◌else◌}
use finsy.Prelude.Int.{pos, eqb_ℤ}
use finsy.Futures.{returned}
use finsy.Futures.Wakeup.{Active, increment-IsSound, decrement-IsSound}
use finsy.Switch.Tasks.Count.{increment-counter, decrement-counter, running}
use finsy.Controller.{
  Switch, ControlTask, Controller, empty_controller, find_switch, is_some, start_switch,
  cancel_task, stop_switch, add, remove, is_same, remove_from, on_leave, remove_task, exit_if,
  leave, switch_done, start_all, is_none, enter, stop_all, begin_exit, end_exit, has_task,
  delete_switch, or_stop, Step,
}

-- The countdown stands at the number of control tasks, and its future is in order.
abbrev IsCounted : Controller → Type 0
IsCounted c =
    (c.task_count.counter ≡ pos (length c.tasks)) × Active c.task_count.future c.task_count

-- Of a choice between two states, each of which counts its tasks
if-IsCounted :
    (b : Bool) (x y : Controller) → IsCounted x → IsCounted y → IsCounted (if b then x else y)
if-IsCounted true x y h k = h
if-IsCounted false x y h k = k

if_step-IsCounted :
    (b : Bool) (x y : Step) → IsCounted x.1 → IsCounted y.1 → IsCounted (if b then x else y).1
if_step-IsCounted true x y h k = h
if_step-IsCounted false x y h k = k

start_switch-IsCounted :
    (s : Switch) (c : Controller) → IsCounted c → IsCounted (start_switch s c).1
unfolding start_switch
start_switch-IsCounted s c (count, active) =
    let k = c.task_count in
    elim (Bool-cases (has_task s.id c.tasks)) [
      | inl e ↦ rw (e, start_switch) (count, active)
      | inr e ↦
          rw (e, start_switch)
            (
              increment-counter k.future k.counter k.states k.made _ count,
              (increment-IsSound returned k.future k.counter k.states k.made (active, tt)).0,
            )
    ]

length-cancel_task : (i : ℕ) (ts : List ControlTask) → length (cancel_task i ts) ≡ length ts
unfolding cancel_task
length-cancel_task i [] = refl
length-cancel_task i (t ∷ ts) = ap suc (length-cancel_task i ts)

stop_switch-IsCounted : (s : Switch) (c : Controller) → IsCounted c → IsCounted (stop_switch s c)
unfolding stop_switch
stop_switch-IsCounted s c (count, active) =
    (count ∙ ap pos (sym (length-cancel_task s.id c.tasks)), active)

stop_all-IsCounted : (ss : List Switch) (c : Controller) → IsCounted c → IsCounted (stop_all ss c)
unfolding stop_all
stop_all-IsCounted [] c h = h
stop_all-IsCounted (s ∷ ss) c h =
    stop_all-IsCounted ss (stop_switch s c) (stop_switch-IsCounted s c h)

or_stop-IsCounted : (a b : Step) → IsCounted a.1 → IsCounted b.1 → IsCounted (or_stop a b).1
unfolding or_stop
or_stop-IsCounted (ok _, c) b h k = k
or_stop-IsCounted (err e, c) b h k = h

start_all-IsCounted :
    (ss : List Switch) (c : Controller) → IsCounted c → IsCounted (start_all ss c).1
unfolding start_all
start_all-IsCounted [] c h = h
start_all-IsCounted (s ∷ ss) c h =
    let started = start_switch-IsCounted s c h in
    or_stop-IsCounted (start_switch s c) (start_all ss (start_switch s c).1) started
      (start_all-IsCounted ss (start_switch s c).1 started)

add-IsCounted : (s : Switch) (c : Controller) → IsCounted c → IsCounted (add s c).1
unfolding add
add-IsCounted s c h =
    let started = start_switch-IsCounted s (record c { switches = c.switches ++ (s ∷ []) }) h in
    if_step-IsCounted (is_some (find_switch s.name c.switches)) _ _ h
      (if_step-IsCounted c.is_running _ _ started h)

remove-IsCounted : (s : Switch) (c : Controller) → IsCounted c → IsCounted (remove s c).1
unfolding remove remove_from
remove-IsCounted s c h =
    let stopped =
      stop_switch-IsCounted s (record c { switches = delete_switch s.name c.switches }) h in
    if_step-IsCounted (is_same s (find_switch s.name c.switches)) _ _
      (if-IsCounted c.is_running _ _ stopped h) h

remove_task-length :
    (i : ℕ) (ts : List ControlTask) {rest : List ControlTask}
    → remove_task i ts ≡ some rest
    → length ts ≡ suc (length rest)
unfolding remove_task
remove_task-length i [] h = cc
remove_task-length i (t ∷ ts) {rest} h =
    let ih = λ (r : List ControlTask) (e : remove_task i ts ≡ some r). remove_task-length i ts e in
    elim (Option-cases (remove_task i ts)) [
      | inl e ↦ ground arith
      | inr (r, e) ↦ ground (arith, ih r e)
    ]

exit_if-parts : (failed : Bool) (s : Step) → (exit_if failed s).1 ≡ s.1
unfolding exit_if
exit_if-parts true (ok _, c) = refl
exit_if-parts false (ok _, c) = refl
exit_if-parts failed (err e, c) = refl

leave-parts :
    (i : ℕ) (ts : List ControlTask) (c : Controller)
    → ((leave i ts c).tasks ≡ ts) × ((leave i ts c).task_count ≡ c.task_count)
unfolding leave on_leave
leave-parts i ts c = ground arith

switch_done-IsCounted :
    (i : ℕ) (failed : Bool) (c : Controller) → IsCounted c → IsCounted (switch_done i failed c).1
unfolding switch_done
switch_done-IsCounted i failed c (count, active) =
    let k = c.task_count in
    elim (Option-cases (remove_task i c.tasks)) [
      | inl e ↦ rw (e, switch_done) (count, active)
      | inr (ts, e) ↦
          let more = count ∙ ap pos (remove_task-length i c.tasks e) in
          let less = decrement-counter k.future k.counter k.states k.made _ more active in
          let sound =
            decrement-IsSound returned k.future k.counter k.states k.made (running k _ more)
              (active, tt) in
          let (same_tasks, same_count) = leave-parts i ts c in
          rw (e, switch_done, exit_if-parts failed, same_tasks, same_count) (less, sound.0)
    ]

enter-IsCounted : (c : Controller) → IsCounted c → IsCounted (enter c).1
unfolding enter
enter-IsCounted c h =
    let started = start_all-IsCounted c.switches (record c { is_running = true }) h in
    if_step-IsCounted
      (not c.is_running && (eqb_ℤ c.task_count.counter (pos 0) && is_none c.pending_removal)) _ _
      started h

begin_exit-IsCounted : (c : Controller) → IsCounted c → IsCounted (begin_exit c).1
unfolding begin_exit
begin_exit-IsCounted c h =
    let stopped = stop_all-IsCounted c.switches c h in if_step-IsCounted c.is_running _ _ stopped h

-- What may happen to a controller
pub data Steps : Controller → Type 0 where
  new : Steps empty_controller
  added : (s : Switch) {c : Controller} → Steps c → Steps (add s c).1
  removed : (s : Switch) {c : Controller} → Steps c → Steps (remove s c).1
  done : (i : ℕ) (failed : Bool) {c : Controller} → Steps c → Steps (switch_done i failed c).1
  entered : {c : Controller} → Steps c → Steps (enter c).1
  exiting : {c : Controller} → Steps c → Steps (begin_exit c).1
  exited : {c : Controller} → Steps c → Steps (end_exit c)

Steps-IsCounted : {c : Controller} → Steps c → IsCounted c
unfolding end_exit
Steps-IsCounted new = (refl, refl)
Steps-IsCounted (added s h) = add-IsCounted s _ (Steps-IsCounted h)
Steps-IsCounted (removed s h) = remove-IsCounted s _ (Steps-IsCounted h)
Steps-IsCounted (done i failed h) = switch_done-IsCounted i failed _ (Steps-IsCounted h)
Steps-IsCounted (entered h) = enter-IsCounted _ (Steps-IsCounted h)
Steps-IsCounted (exiting h) = begin_exit-IsCounted _ (Steps-IsCounted h)
Steps-IsCounted (exited h) = Steps-IsCounted h

-- In every state that a controller reaches by adding and removing switches, starting and stopping, and
-- the end of control tasks, its countdown stands at the number of its control tasks.
pub controller_counted : (c : Controller) → Steps c → c.task_count.counter ≡ pos (length c.tasks)
controller_counted c s = (Steps-IsCounted s).0
