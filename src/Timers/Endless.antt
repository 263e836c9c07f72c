-- ===== src/Timers/Endless.antt =====
-- Two timers with the interval 0.
use zeromq.Prelude.{
  ℕ, zero, suc, ◌^◌, ◌≤◌, ◌<◌, ◌≡◌, refl, ◌∙◌, true, false, none, some, List, [], ◌∷◌, ◌++◌, leb,
  ltb, arith,
}
use zeromq.Timers.{Timer, later, find, insert_behind, round, loop, execute}
use zeromq.Timers.Ending.{loop_goes_on}

module _ (now : ℕ) (in_range : now < 2 ^ 64) where
  -- The first of the two is run, and comes behind the other.
  turns :
      (k k' : ℕ) (t u : Timer) (c : List ℕ) (called : List Timer)
      → k ≤ now
      → k' ≤ now
      → t.interval ≡ 0
      → find t.timer_id c ≡ false
      → round now
          (record { done = []; rest = (k, t) ∷ (k', u) ∷ []; cancelled = c; called = called })
        ≡ some (record {
          done = [];
          rest = (k', u) ∷ (now, t) ∷ [];
          cancelled = c;
          called = called ++ t ∷ [];
        })
  unfolding round insert_behind
  turns k k' t u c called h h' z live =
      let when : later now t.interval ≡ now = omega (arith, z, in_range) in
      let is_due : ltb now k ≡ false = ground arith in
      let behind : ltb now k' ≡ false = ground arith in
      let after : leb k' now ≡ true = ground arith in rw (live, is_due, when, behind, after) refl

  turns_forever :
      (n : ℕ) (k k' : ℕ) (t u : Timer) (c : List ℕ) (called : List Timer)
      → k ≤ now
      → k' ≤ now
      → t.interval ≡ 0
      → u.interval ≡ 0
      → find t.timer_id c ≡ false
      → find u.timer_id c ≡ false
      → loop n now
          (record { done = []; rest = (k, t) ∷ (k', u) ∷ []; cancelled = c; called = called })
        ≡ none
  unfolding loop
  turns_forever zero k k' t u c called h h' z z' live live' = refl
  turns_forever (suc n) k k' t u c called h h' z z' live live' =
      loop_goes_on n now
        (record { done = []; rest = (k, t) ∷ (k', u) ∷ []; cancelled = c; called = called })
        (record {
          done = [];
          rest = (k', u) ∷ (now, t) ∷ [];
          cancelled = c;
          called = called ++ t ∷ [];
        })
        (turns k k' t u c called h h' z live)
      ∙ turns_forever n k' now u t c (called ++ t ∷ []) h' (omega arith) z' z live' live

-- With two timers that are due, whose interval is 0, and which are not cancelled, `execute` does not return,
-- whatever fuel it has.
pub execute_endless :
    (n now id : ℕ) (k k' : ℕ) (t u : Timer) (c : List ℕ)
    → now < 2 ^ 64
    → k ≤ now
    → k' ≤ now
    → t.interval ≡ 0
    → u.interval ≡ 0
    → find t.timer_id c ≡ false
    → find u.timer_id c ≡ false
    → execute n now
        (record { next_timer_id = id; timers = (k, t) ∷ (k', u) ∷ []; cancelled_timers = c })
      ≡ none
unfolding execute
execute_endless n now id k k' t u c in_range h h' z z' live live' =
    rw (execute, turns_forever now in_range n k k' t u c [] h h' z z' live live') refl
