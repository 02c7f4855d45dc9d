-- ===== src/Futures/Examples.antt =====
-- A task that waits for two others and is cancelled meanwhile, and the theorems on its way.
use finsy.Prelude.{◌≡◌, refl, true, false, err, assertion_error, cancelled_error}
use finsy.Futures.{
  Waiting, Steps, start, then_, incremented, decremented, began, was_cancelled, resumed, new,
  increment, decrement, begin_wait, cancel_waiter, resume, wait_cancelled, create_future,
  set_result, awaiting, raised, is_over, is_done,
}
use finsy.Futures.Wakeup.{countdown_wakes, IsEnded}
use finsy.Futures.Cancel.{cancel_called_once, cancel_calls_in}

abbrev one_up : Waiting → Waiting
one_up w = record w { countdown = increment w.countdown }

abbrev one_down : Waiting → Waiting
one_down w = record w { countdown = (decrement w.countdown).1 }

abbrev begun : Waiting
begun = begin_wait (one_up new)

abbrev interrupted : Waiting
interrupted = cancel_waiter 0 false false begun

abbrev going_on : Waiting
going_on = resume 0 false false interrupted

abbrev over : Waiting
over = one_down going_on

to_going_on : Steps new going_on
unfolding begin_wait cancel_waiter resume wait_cancelled create_future increment decrement
    set_result
to_going_on =
    then_
      (then_ (then_ (then_ (start new) (incremented new)) (began (one_up new) refl))
        (was_cancelled begun 0 false false refl))
      (resumed interrupted 0 false false refl refl)

still_running : is_over going_on.countdown ≡ false
unfolding begin_wait cancel_waiter resume wait_cancelled create_future increment decrement
    set_result
still_running = refl

to_over : Steps new over
to_over = then_ to_going_on (decremented going_on still_running)

is_over_now : is_over over.countdown ≡ true
unfolding begin_wait cancel_waiter resume wait_cancelled create_future increment decrement
    set_result
is_over_now = refl

waits_again : over.phase ≡ awaiting 1 true false
unfolding begin_wait cancel_waiter resume wait_cancelled create_future increment decrement
    set_result
waits_again = refl

ended : (resume 1 true false over).phase ≡ raised cancelled_error
unfolding begin_wait cancel_waiter resume wait_cancelled create_future increment decrement
    set_result
ended = refl

not_counting : (decrement new.countdown).0 ≡ err assertion_error
unfolding decrement
not_counting = refl

countdown_wakes_example :
    (is_done (over.countdown.states 1) ≡ true) × IsEnded (resume 1 true false over).phase
countdown_wakes_example = countdown_wakes over 1 true false to_over waits_again is_over_now

cancel_called_once_example : over.cancel_calls ≡ cancel_calls_in over.phase
cancel_called_once_example = cancel_called_once over to_over
