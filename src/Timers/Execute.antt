-- ===== src/Timers/Execute.antt =====
-- `execute` runs the timers that are due, and ends.
use Prim.{tt}
use zeromq.Prelude.{
  ℕ, ◌+◌, ◌≤◌, ◌<◌, ◌≡◌, refl, inl, inr, false, not, ◌&&◌, some, List, [], ◌∷◌, ◌++◌, All, length,
  ltb, ltb→lt, arith, Bool-cases, both_true,
}
use mathlib.Core.List.{Memᴰ}
use zeromq.Timers.{Timer, Timers, Entry, later, find, Loop, loop, execute}
use zeromq.Timers.Map.{IsSorted, IsDistinct}
use zeromq.Timers.Due.{due, waiting, to_take-le}
use zeromq.Timers.Rounds.{IsShort}
use zeromq.Timers.Ending.{loop_ends}

-- The map is in order, and the ids are different and were given out.
pub record IsValid (s : Timers) : Type 0 where
  pub sorted : IsSorted s.timers
  pub distinct : IsDistinct s.timers
  pub known : All (λ e. e.1.timer_id ≤ s.next_timer_id) s.timers

-- What `execute` has done with the timers `s`.
pub record Executed (now : ℕ) (s s' : Timers) (called : List Timer) : Type 0 where
  pub called_due : called ≡ due now s.cancelled_timers s.timers
  pub again : All (λ t. Memᴰ (later now t.interval, t) s'.timers) called
  pub keeps : All (λ e. Memᴰ e s'.timers) (waiting now s.cancelled_timers s.timers)
  pub none_due : due now s'.cancelled_timers s'.timers ≡ []
  pub valid : IsValid s'

all_waiting :
    (now : ℕ) (c : List ℕ) (P : Entry → Type 0) (l : List Entry)
    → ((e : Entry) → Memᴰ e l → now < e.0 → find e.1.timer_id c ≡ false → P e)
    → All P (waiting now c l)
all_waiting now c P [] h = tt
all_waiting now c P (e ∷ l) h =
    let rest = all_waiting now c P l (λ x m a live. h x (Memᴰ.tail m) a live) in
    elim (Bool-cases (ltb now e.0 && not (find e.1.timer_id c))) [
      | inl y ↦
          let (a, live) = both_true (ltb now e.0) (not (find e.1.timer_id c)) y in
          rw y (h e (Memᴰ.head refl) (ltb→lt now e.0 a) (ground (arith, live)), rest)
      | inr n ↦ rw n rest
    ]

execute_lem :
    (n now : ℕ) (s : Timers) (r : Loop)
    → loop n now
        (record { done = []; rest = s.timers; cancelled = s.cancelled_timers; called = [] })
      ≡ some r
    → execute n now s
      ≡ some (r.called, record s { timers = r.done ++ r.rest; cancelled_timers = r.cancelled })
unfolding execute
execute_lem n now s r e = rw (execute, e) refl

-- When the intervals are positive and do not go past the end of the clock, `execute` returns, after a round for
-- each timer and one more at most. It has called the handlers of the timers that are due and not cancelled, each
-- once, in the order of their times. Each of them is put in again for its interval later, the timers that are
-- not due and not cancelled are as they were, none is due any more, and the map is in order.
pub execute-Executed :
    (now : ℕ) (s : Timers)
    → IsValid s
    → All (λ e. IsShort now e.1) s.timers
    → (called : List Timer) × (s' : Timers) × (execute (length s.timers + 1) now s
        ≡ some (called, s'))
      × Executed now s s' called
execute-Executed now s v short =
    let fewer = to_take-le now s.cancelled_timers s.timers in
    let (r, e, k) =
      loop_ends (length s.timers + 1) now [] s.timers s.cancelled_timers []
        (record { sorted = v.sorted; distinct = v.distinct; short = short; early = tt })
        (omega arith) in
    let s' : Timers = record s { timers = r.done ++ r.rest; cancelled_timers = r.cancelled } in
    (
      r.called,
      s',
      execute_lem (length s.timers + 1) now s r e,
      record {
        called_due = k.called;
        again = rw (k.called) k.again;
        keeps = all_waiting now s.cancelled_timers (λ x. Memᴰ x s'.timers) s.timers k.keeps;
        none_due = k.none_due;
        valid = record {
          sorted = k.sorted;
          distinct = k.distinct;
          known = k.known s.next_timer_id v.known;
        };
      },
    )
