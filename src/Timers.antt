-- ===== src/Timers.antt =====
-- src/timers.cpp: timers that an application runs itself. A map by time is the list of its entries in the order
-- of the iterator; a new entry comes behind those of the same time. The clock is the argument `now`. A handler
-- and its argument are a value; a handler does not call the methods of the timers that run it. An id
-- is the pattern of its `int` of 32 bits, and `long` has 64 bits.
pub mod Map
pub mod Due
pub mod Rounds
pub mod Ending
pub mod Execute
pub mod Timeout
pub mod Calls
pub mod Endless
mod Tests
use zeromq.Prelude.{
  ℕ, zero, suc, ◌+◌, ◌-◌, ◌%◌, ◌^◌, Bool, true, false, Option, none, some, List, [], ◌∷◌, ◌++◌,
  length, ltb, leb, ◌==◌, ◌||◌, not, if◌then◌else◌, ℤ, pos, negsuc,
}

pub record Timer : Type 0 where
  pub timer_id : ℕ
  pub interval : ℕ
  pub handler : ℕ

abbrev pub Entry : Type 0
Entry = ℕ × Timer

pub record Timers : Type 0 where
  pub next_timer_id : ℕ
  pub timers : List Entry
  pub cancelled_timers : List ℕ

abbrev pub new : Timers
new = record { next_timer_id = 0; timers = []; cancelled_timers = [] }

-- The time of `uint64_t` that an interval ends.
abbrev pub later : ℕ → ℕ → ℕ
later now interval = (now + interval) % 2 ^ 64

-- `std::multimap::insert`
abbrev pub insert : ℕ → Timer → List Entry → List Entry
insert when t [] = (when, t) ∷ []
insert when t (e ∷ l) = if leb e.0 when then e ∷ insert when t l else (when, t) ∷ e ∷ l

-- `std::set::find` and `std::set::erase`
abbrev pub find : ℕ → List ℕ → Bool
find id [] = false
find id (c ∷ cs) = (id == c) || find id cs

abbrev pub erase : ℕ → List ℕ → List ℕ
erase id [] = []
erase id (c ∷ cs) = if id == c then erase id cs else c ∷ erase id cs

-- The id, and the timers after the call.
unfoldable pub add : ℕ → ℕ → ℕ → Timers → ℕ × Timers
add now interval handler s =
    let id = (s.next_timer_id + 1) % 2 ^ 32 in
    let t : Timer = record { timer_id = id; interval = interval; handler = handler } in
    (id, record s { next_timer_id = id; timers = insert (later now interval) t s.timers })

-- `true` is 0 and `false` is EINVAL, here and below.
unfoldable pub cancel : ℕ → Timers → Bool × Timers
cancel id s =
    if find id s.cancelled_timers
    then (false, s)
    else (true, record s { cancelled_timers = id ∷ s.cancelled_timers })

-- The first entry of a timer, and the others.
abbrev pub take_out : ℕ → List Entry → Option (Entry × List Entry)
take_out id [] = none
take_out id (e ∷ l) =
    if e.1.timer_id == id
    then some (e, l)
    else elim (take_out id l) [ none ↦ none | some (x, l') ↦ some (x, e ∷ l') ]

-- The entry that was found is put in again, from now on.
abbrev pub put_again : ℕ → (Timer → Timer) → Timers → Option (Entry × List Entry) → Bool × Timers
put_again now change s none = (false, s)
put_again now change s (some (e, l)) =
    let t = change e.1 in (true, record s { timers = insert (later now t.interval) t l })

unfoldable pub set_interval : ℕ → ℕ → ℕ → Timers → Bool × Timers
set_interval now id interval s =
    put_again now (λ t. record t { interval = interval }) s (take_out id s.timers)

unfoldable pub reset : ℕ → ℕ → Timers → Bool × Timers
reset now id s = put_again now (λ t. t) s (take_out id s.timers)

-- `(long) n` of a number of 64 bits
unfoldable pub to_long : ℕ → ℤ
to_long n = if ltb n (2 ^ 63) then pos n else negsuc (2 ^ 64 - 1 - n)

-- The loop of `timeout`: the time up to the first timer that is not cancelled, or -1; those before it are
-- erased.
unfoldable pub first_live : ℕ → List Entry → List ℕ → ℤ × List Entry × List ℕ
unfolding to_long
first_live now [] c = (negsuc 0, [], c)
first_live now (e ∷ l) c =
    let rest = first_live now l (erase e.1.timer_id c) in
    if find e.1.timer_id c
    then rest
    else (if ltb now e.0 then to_long (e.0 - now) else pos 0, e ∷ l, c)

unfoldable pub timeout : ℕ → Timers → ℤ × Timers
unfolding first_live
timeout now s =
    let (time, l, c) = first_live now s.timers s.cancelled_timers in
    (time, record s { timers = l; cancelled_timers = c })

-- The loop of `execute`: the entries before the iterator and those from it on, the ids of the cancelled timers,
-- and the timers whose handlers were called.
pub record Loop : Type 0 where
  pub done : List Entry
  pub rest : List Entry
  pub cancelled : List ℕ
  pub called : List Timer

-- `timers.insert` where the iterator is at `rest`
unfoldable pub insert_behind : ℕ → Timer → List Entry → List Entry → List Entry × List Entry
insert_behind when t done [] = (insert when t done, [])
insert_behind when t done (e ∷ l) =
    if ltb when e.0 then (insert when t done, e ∷ l) else (done, insert when t (e ∷ l))

-- One round; `none` is the end of the loop.
unfoldable pub round : ℕ → Loop → Option Loop
unfolding insert_behind
round now s = elim s.rest [
  | [] ↦ none
  | e ∷ l ↦
      let (done, rest) = insert_behind (later now e.1.interval) e.1 s.done l in
      if find e.1.timer_id s.cancelled
      then some (record s { rest = l; cancelled = erase e.1.timer_id s.cancelled })
      else if ltb now e.0
      then none
      else some (record s { done = done; rest = rest; called = s.called ++ e.1 ∷ [] })
]

-- `none` where the fuel is used up.
unfoldable pub loop : ℕ → ℕ → Loop → Option Loop
unfolding round
loop zero now s = none
loop (suc n) now s = elim (round now s) [ none ↦ some s | some s' ↦ loop n now s' ]

-- The timers that were run, and the timers afterwards, with a round for each timer and one for the end.
unfoldable pub execute : ℕ → ℕ → Timers → Option (List Timer × Timers)
unfolding loop
execute n now s =
    elim (loop n now
      (record { done = []; rest = s.timers; cancelled = s.cancelled_timers; called = [] })) [
        | none ↦ none
        | some r ↦
            some (r.called, record s { timers = r.done ++ r.rest; cancelled_timers = r.cancelled })
      ]
