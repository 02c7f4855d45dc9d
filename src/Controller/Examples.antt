-- ===== src/Controller/Examples.antt =====
-- A controller with one switch, and the theorems about it.
use finsy.Prelude.{
  ◌≡◌, refl, true, false, none, some, [], ◌∷◌, codes, ok, err, value_error, system_exit, length,
}
use finsy.Prelude.Int.{pos}
use finsy.Futures.{increment, decrement, create_future, set_result}
use finsy.Controller.{
  Switch, Controller, empty_controller, create, find_switch, has_task, start_switch, stop_switch,
  add, delete_switch, remove, remove_task, switch_done, enter, begin_exit, end_exit,
}
use finsy.Controller.Members.{add_remove_lem}
use finsy.Controller.Counted.{Steps, new, added, removed, entered, controller_counted}

abbrev first : Switch
first = record { id = 1; name = codes "sw1" }

abbrev same_name : Switch
same_name = record { id = 2; name = codes "sw1" }

made : (create (first ∷ same_name ∷ []) ≡ err value_error) × (create [] ≡ ok empty_controller)
unfolding create find_switch
made = (refl, refl)

abbrev with_first : Controller
with_first = (add first empty_controller).1

abbrev running : Controller
running = (enter with_first).1

abbrev removing : Controller
removing = (remove first running).1

-- The removal is complete when the task has ended.
removed_later :
    (removing.removed ≡ [])
    × (removing.pending_removal ≡ 1 ∷ [])
    × ((switch_done 1 false removing).1.removed ≡ 1 ∷ [])
    × ((switch_done 1 true removing).0 ≡ err system_exit)
unfolding add enter remove switch_done find_switch start_switch stop_switch has_task delete_switch
    remove_task increment decrement create_future set_result
removed_later = (refl, refl, refl, refl)

left : (end_exit (begin_exit running).1).is_running ≡ false
unfolding end_exit
left = refl

unknown_switch : (remove same_name with_first).0 ≡ err value_error
unfolding add remove find_switch
unknown_switch = refl

not_there : find_switch (codes "sw1") empty_controller.switches ≡ none
unfolding find_switch
not_there = refl

add_remove_lem_example :
    ((add first empty_controller).0 ≡ ok tt)
    × (find_switch (codes "sw1") (add first empty_controller).1.switches ≡ some first)
    × (add same_name (add first empty_controller).1
        ≡ (err value_error, (add first empty_controller).1))
    × (remove first (add first empty_controller).1
        ≡ (ok tt, record empty_controller { removed = 1 ∷ [] }))
add_remove_lem_example = add_remove_lem first same_name empty_controller refl not_there refl

to_removing : Steps removing
to_removing = removed first (entered (added first new))

controller_counted_example : removing.task_count.counter ≡ pos (length removing.tasks)
controller_counted_example = controller_counted removing to_removing
