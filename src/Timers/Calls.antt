-- ===== src/Timers/Calls.antt =====
-- Every call keeps the timers in order.
use Prim.{tt}
use zeromq.Prelude.{
  All-map, ℕ, ◌+◌, ◌%◌, ◌^◌, ◌<◌, ◌≤◌, ◌≡◌, ◌≢◌, refl, sym, inl, inr, Option, none, some, List, [],
  ◌∷◌, All, length, ◌==◌, arith, Bool-cases,
}
use mathlib.Core.Path.{subst}
use zeromq.Timers
use zeromq.Timers.{
  Timer, Timers, Entry, later, insert, find, erase, add, cancel, take_out, put_again, set_interval,
  reset, first_live, timeout, execute,
}
use zeromq.Timers.Map.{IsSorted, Absent, IsDistinct, insert-All, insert-IsSorted, insert-IsDistinct}
use zeromq.Timers.Rounds.{IsShort}
use zeromq.Timers.Execute.{IsValid, execute-Executed}

-- The calls, where `add` is made when the next id is in the range of `int`, and `execute` when the intervals are
-- positive and do not go past the end of the clock.
pub data Step : Timers → Timers → Type 0 where
  add_step :
      (now interval handler : ℕ) (s : Timers)
      → s.next_timer_id + 1 < 2 ^ 31
      → Step s (add now interval handler s).1
  cancel_step : (id : ℕ) (s : Timers) → Step s (cancel id s).1
  set_interval_step : (now id interval : ℕ) (s : Timers) → Step s (set_interval now id interval s).1
  reset_step : (now id : ℕ) (s : Timers) → Step s (reset now id s).1
  timeout_step : (now : ℕ) (s : Timers) → Step s (timeout now s).1
  execute_step :
      (now : ℕ) (s s' : Timers) (called : List Timer)
      → All (λ e. IsShort now e.1) s.timers
      → execute (length s.timers + 1) now s ≡ some (called, s')
      → Step s s'

pub data Reach : Timers → Timers → Type 0 where
  here : {s : Timers} → Reach s s
  next : {s s' s'' : Timers} → Reach s s' → Step s' s'' → Reach s s''

-- What is left after `take_out`, and the entry.
record TakenOut (l : List Entry) (e : Entry) (l' : List Entry) : Type 1 where
  sorted : IsSorted l'
  distinct : IsDistinct l'
  absent : Absent e.1.timer_id l'
  all : (P : Entry → Type 0) → All P l → P e × All P l'

abbrev OutOf : List Entry → Option (Entry × List Entry) → Type 1
OutOf l none = Unit
OutOf l (some (e, l')) = TakenOut l e l'

take_out-OutOf : (id : ℕ) (l : List Entry) → IsSorted l → IsDistinct l → OutOf l (take_out id l)
take_out-OutOf id [] s d = tt
take_out-OutOf id (e ∷ l) (b, s) (a, d) = elim (Bool-cases (e.1.timer_id == id)) [
  | inl y ↦ rw y (record { sorted = s; distinct = d; absent = a; all = λ P h. h })
  | inr n ↦ rw n (behind (take_out id l) (take_out-OutOf id l s d))
]
  where
    behind :
        (o : Option (Entry × List Entry))
        → OutOf l o
        → OutOf (e ∷ l) (elim o [ none ↦ none | some (x, l') ↦ some (x, e ∷ l') ])
    behind none h = tt
    behind (some (x, l')) h = record {
      sorted = ((h.all (λ y. e.0 ≤ y.0) b).1, h.sorted);
      distinct = ((h.all (λ y. e.1.timer_id ≢ y.1.timer_id) a).1, h.distinct);
      absent = ((λ same. (h.all (λ y. e.1.timer_id ≢ y.1.timer_id) a).0 (sym same)), h.absent);
      all = λ P (p, q). let (px, ql) = h.all P q in (px, (p, ql));
    }

-- An entry that was taken out is put in at another time.
put_again-IsValid :
    (now : ℕ) (change : Timer → Timer) (s : Timers)
    → ((t : Timer) → (change t).timer_id ≡ t.timer_id)
    → IsValid s
    → (o : Option (Entry × List Entry)) → OutOf s.timers o
    → IsValid (put_again now change s o).1
put_again-IsValid now change s same v none h = v
put_again-IsValid now change s same v (some (e, l)) h =
    let t = change e.1 in
    let when = later now t.interval in
    let (pe, pl) = h.all (λ y. y.1.timer_id ≤ s.next_timer_id) v.known in
    let absent : Absent t.timer_id l = subst (λ id. Absent id l) (sym (same e.1)) h.absent in
    let le : t.timer_id ≤ s.next_timer_id = omega (arith, pe, same e.1) in
    record {
      sorted = insert-IsSorted when t l h.sorted;
      distinct = insert-IsDistinct when t l absent h.distinct;
      known = insert-All when t (λ y. y.1.timer_id ≤ s.next_timer_id) l le pl;
    }

set_interval-IsValid :
    (now id interval : ℕ) (s : Timers) → IsValid s → IsValid (set_interval now id interval s).1
unfolding set_interval
set_interval-IsValid now id interval s v =
    put_again-IsValid now (λ t. record t { interval = interval }) s (λ t. refl) v
      (take_out id s.timers) (take_out-OutOf id s.timers v.sorted v.distinct)

reset-IsValid : (now id : ℕ) (s : Timers) → IsValid s → IsValid (reset now id s).1
unfolding reset
reset-IsValid now id s v =
    put_again-IsValid now (λ t. t) s (λ t. refl) v (take_out id s.timers)
      (take_out-OutOf id s.timers v.sorted v.distinct)

add-IsValid :
    (now interval handler : ℕ) (s : Timers)
    → s.next_timer_id + 1 < 2 ^ 31
    → IsValid s
    → IsValid (add now interval handler s).1
unfolding add
add-IsValid now interval handler s small v =
    let id = (s.next_timer_id + 1) % 2 ^ 32 in
    let in_range : id ≡ s.next_timer_id + 1 = omega arith in
    let t : Timer = record { timer_id = id; interval = interval; handler = handler } in
    record {
      sorted = insert-IsSorted (later now interval) t s.timers v.sorted;
      distinct =
          insert-IsDistinct (later now interval) t s.timers
            (All-map {P = λ y. y.1.timer_id ≤ s.next_timer_id}
              (λ y k. λ same. omega (arith, k, same, in_range)) s.timers v.known)
            v.distinct;
      known =
          insert-All (later now interval) t (λ y. y.1.timer_id ≤ id) s.timers (omega arith)
            (All-map {P = λ y. y.1.timer_id ≤ s.next_timer_id} (λ y k. omega (arith, k, in_range))
              s.timers v.known);
    }

cancel-IsValid : (id : ℕ) (s : Timers) → IsValid s → IsValid (cancel id s).1
unfolding cancel
cancel-IsValid id s v = elim (Bool-cases (find id s.cancelled_timers)) [
  | inl y ↦ rw y v
  | inr n ↦ rw n (record { sorted = v.sorted; distinct = v.distinct; known = v.known })
]

first_live_keeps :
    (now b : ℕ) (l : List Entry) (c : List ℕ)
    → IsSorted l
    → IsDistinct l
    → All (λ y. y.1.timer_id ≤ b) l
    → (let l' = (first_live now l c).1 in
        IsSorted l' × IsDistinct l' × All (λ y. y.1.timer_id ≤ b) l')
unfolding first_live
first_live_keeps now b [] c s d k = (tt, tt, tt)
first_live_keeps now b (e ∷ l) c (a, s) (f, d) (p, k) = elim (Bool-cases (find e.1.timer_id c)) [
  | inl y ↦ rw y (first_live_keeps now b l (erase e.1.timer_id c) s d k)
  | inr n ↦ rw n ((a, s), (f, d), (p, k))
]

timeout-IsValid : (now : ℕ) (s : Timers) → IsValid s → IsValid (timeout now s).1
unfolding timeout
timeout-IsValid now s v =
    let (a, b, c) =
      first_live_keeps now s.next_timer_id s.timers s.cancelled_timers v.sorted v.distinct
        v.known in
    record { sorted = a; distinct = b; known = c }

step-IsValid : {s s' : Timers} → Step s s' → IsValid s → IsValid s'
step-IsValid (add_step now interval handler s small) v = add-IsValid now interval handler s small v
step-IsValid (cancel_step id s) v = cancel-IsValid id s v
step-IsValid (set_interval_step now id interval s) v = set_interval-IsValid now id interval s v
step-IsValid (reset_step now id s) v = reset-IsValid now id s v
step-IsValid (timeout_step now s) v = timeout-IsValid now s v
step-IsValid (execute_step now s s' called short e) v =
    let (called', s'', e', x) = execute-Executed now s v short in rw (sym (same e e')) x.valid
  where
    same :
        {s'' : Timers} {called' : List Timer}
        → execute (length s.timers + 1) now s ≡ some (called, s')
        → execute (length s.timers + 1) now s ≡ some (called', s'')
        → s'' ≡ s'
    same e e' = cc

-- Whatever calls are made from new timers on, `add` as long as the ids are in the range of `int` and `execute`
-- only when the intervals are positive and do not go past the end of the clock: the map is in the order of the
-- times, no two timers have the same id, and all ids were given out.
pub Reach-new-IsValid : {s : Timers} → Reach Timers.new s → IsValid s
Reach-new-IsValid here = record { sorted = tt; distinct = tt; known = tt }
Reach-new-IsValid (next r step) = step-IsValid step (Reach-new-IsValid r)
