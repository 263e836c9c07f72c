-- ===== src/Timers/Tests.antt =====
-- The theorems on timers at two timers.
use Prim.{tt}
use zeromq.Prelude.{ℕ, ◌≡◌, refl, none, some, List, [], ◌∷◌, arith}
use zeromq.Timers
use zeromq.Timers.{Timer, Timers, add, execute, loop, round, insert_behind}
use zeromq.Timers.Execute.{IsValid, Executed, execute-Executed}
use zeromq.Timers.Timeout.{TimedOut, timeout-TimedOut}
use zeromq.Timers.Calls.{Reach, here, next, add_step, Reach-new-IsValid}
use zeromq.Timers.Endless.{execute_endless}

-- At the time 5 a timer is added that ends at 15, and one that ends at 12.
abbrev one : Timers
one = (add 5 10 100 Timers.new).1

abbrev two : Timers
two = (add 5 7 101 one).1

two-Reach : Reach Timers.new two
unfolding add
two-Reach =
    next (next here (add_step 5 10 100 Timers.new (omega arith)))
      (add_step 5 7 101 one (omega arith))

Reach-new-IsValid_example : IsValid two
Reach-new-IsValid_example = Reach-new-IsValid two-Reach

abbrev both : Timers
both = record {
  next_timer_id = 2;
  timers =
      (12, record { timer_id = 2; interval = 7; handler = 101 })
      ∷ (15, record { timer_id = 1; interval = 10; handler = 100 })
      ∷ [];
  cancelled_timers = [];
}

both-IsValid : IsValid both
both-IsValid = record {
  sorted = ((omega arith, tt), (tt, tt));
  distinct = (((λ e. omega (arith, e)), tt), (tt, tt));
  known = (omega arith, (omega arith, tt));
}

execute-Executed_example :
    (called : List Timer) × (s' : Timers) × (execute 3 12 both ≡ some (called, s'))
    × Executed 12 both s' called
execute-Executed_example = execute-Executed 12 both both-IsValid (
  record { positive = omega arith; counted = omega arith },
  (record { positive = omega arith; counted = omega arith }, tt),
)

timeout-TimedOut_example : TimedOut 13 both
timeout-TimedOut_example = timeout-TimedOut 13 both both-IsValid (omega arith, (omega arith, tt))

abbrev zero_timer : ℕ → Timer
zero_timer id = record { timer_id = id; interval = 0; handler = 0 }

execute_endless_example :
    execute 1000 5 (record {
      next_timer_id = 2;
      timers = (3, zero_timer 1) ∷ (4, zero_timer 2) ∷ [];
      cancelled_timers = [];
    })
    ≡ none
execute_endless_example =
    execute_endless 1000 5 2 3 4 (zero_timer 1) (zero_timer 2) [] (omega arith) (omega arith)
      (omega arith) refl refl refl refl
