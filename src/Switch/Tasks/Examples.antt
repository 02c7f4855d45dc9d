-- ===== src/Switch/Tasks/Examples.antt =====
-- A switch with two tasks, one of which fails, and the theorems about it.
use finsy.Prelude.{
  ◌≡◌, refl, true, false, some, [], ◌∷◌, codes, ok, err, fail_fast_error, length, map,
  if◌then◌else◌,
}
use finsy.Prelude.{List}
use finsy.Prelude.Int.{pos}
use finsy.Switch.Tasks.{
  Task, SwitchTasks, new_tasks, new_task, create_task, remove_task, task_done, Ending,
  is_background, task_name, end_wait,
}
use finsy.Switch.Tasks.Count.{Steps, start, then_, created, tasks_counted}
use finsy.Switch.Tasks.Endings.{task_done_lem, stop}

abbrev first : SwitchTasks
first = create_task (codes "s1") (codes "run") true (new_tasks true)

abbrev both : SwitchTasks
both = create_task (codes "s1") (codes "ready") false first

to_both : Steps (new_tasks true) both
to_both =
    then_
      (then_ (start (new_tasks true)) (created (new_tasks true) (codes "s1") (codes "run") true))
      (created first (codes "s1") (codes "ready") false)

abbrev left : List Task
left = new_task 0 (task_name (codes "s1") (codes "run") true) ∷ []

removed : remove_task 1 both.tasks ≡ some left
unfolding create_task remove_task
removed = refl

tasks_counted_example : both.task_count.counter ≡ pos (length both.tasks)
tasks_counted_example = tasks_counted true both to_both

task_done_lem_example :
    ((task_done 1 Ending.finished both).1.tasks ≡ left)
    × ((task_done 1 Ending.cancelled both).1.tasks ≡ left)
    × ((task_done 1 Ending.unavailable both).1.tasks ≡ map stop left)
    × ((task_done 1 Ending.unavailable both).1.fail_count ≡ both.fail_count)
    × ((task_done 1 Ending.failed both).1.tasks ≡ map stop left)
    × (end_wait (ok tt) (task_done 1 Ending.failed both).1
        ≡ (if both.fail_fast then err fail_fast_error else ok tt))
task_done_lem_example = task_done_lem true both 1 (ok tt) to_both removed

in_foreground : is_background (task_name (codes "s1") (codes "ready") false) ≡ false
unfolding is_background task_name
in_foreground = refl
