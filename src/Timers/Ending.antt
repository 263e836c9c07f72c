-- ===== src/Timers/Ending.antt =====
-- The loop of `execute` ends.
use Prim.{tt}
use zeromq.Prelude.{
  All-map, ℕ, zero, suc, ◌≤◌, ◌<◌, ◌≡◌, refl, ◌∙◌, inl, inr, true, false, none, some, List, [], ◌∷◌,
  ◌++◌, ltb, ltb→lt, ltb→ge, arith, Bool-cases,
}
use zeromq.Timers.{Timer, Entry, find, erase, Loop, round, loop}
use zeromq.Timers.Map.{AtLeast, IsSorted}
use zeromq.Timers.Due.{to_take, to_take-erase}
use zeromq.Timers.Rounds.{
  Fits, Ends, here, without, rerun, ends_here, without-Fits, without-Ends, to_take_same, head_after,
  rerun-Fits, rerun-Ends,
}

-- The tests of a round, one after the other.
round_ends :
    (now : ℕ) (s : Loop) (e : Entry) (l : List Entry)
    → find e.1.timer_id s.cancelled ≡ false
    → now < e.0
    → round now (here now s e l) ≡ none
unfolding round
round_ends now s e l live a = let b : ltb now e.0 ≡ true = ground arith in rw (live, b) refl

round_erases :
    (now : ℕ) (s : Loop) (e : Entry) (l : List Entry)
    → find e.1.timer_id s.cancelled ≡ true
    → round now (here now s e l) ≡ some (without now s e l)
unfolding round
round_erases now s e l dead = rw dead refl

round_runs :
    (now : ℕ) (s : Loop) (e : Entry) (l : List Entry)
    → find e.1.timer_id s.cancelled ≡ false
    → e.0 ≤ now
    → round now (here now s e l) ≡ some (rerun now s e l)
unfolding round
round_runs now s e l live le = let b : ltb now e.0 ≡ false = ground arith in rw (live, b) refl

pub loop_goes_on :
    (n now : ℕ) (s s' : Loop) → round now s ≡ some s' → loop (suc n) now s ≡ loop n now s'
unfolding loop
loop_goes_on n now s s' e = rw (loop, e) refl

loop_stops : (n now : ℕ) (s : Loop) → round now s ≡ none → loop (suc n) now s ≡ some s
unfolding loop
loop_stops n now s e = rw (loop, e) refl

abbrev pub Stops : ℕ → ℕ → Loop → Type 0
Stops n now s = (r : Loop) × (loop n now s ≡ some r) × Ends now s r

pub loop_ends :
    (n now : ℕ) (done rest : List Entry) (c : List ℕ) (called : List Timer)
    → (let s : Loop = record { done = done; rest = rest; cancelled = c; called = called } in
        Fits now s → to_take now c rest < n → Stops n now s)
unfolding loop
loop_ends zero now done rest c called f h = absurd (omega arith)
loop_ends (suc n) now done [] c called f h =
    let s : Loop = record { done = done; rest = []; cancelled = c; called = called } in
    (s, unfold round in refl, ends_here now s f tt)
loop_ends (suc n) now done (e ∷ l) c called f h =
    let s : Loop = record { done = done; rest = e ∷ l; cancelled = c; called = called } in
    elim (Bool-cases (find e.1.timer_id c)) [
      | inl dead ↦
          let fewer = to_take-erase now e.1.timer_id c l in
          let (r, eq, k) =
            loop_ends n now done l (erase e.1.timer_id c) called (without-Fits now s e l f)
              (ground arith) in
          (
            r,
            loop_goes_on n now s (without now s e l) (round_erases now s e l dead) ∙ eq,
            without-Ends now s e l r f dead k,
          )
      | inr live ↦ elim (Bool-cases (ltb now e.0)) [
        | inl after ↦
            let a = ltb→lt now e.0 after in
            let b = sorted_from f.sorted in
            (
              s,
              loop_stops n now s (round_ends now s e l live a),
              ends_here now s f (a, All-map {P = λ x. e.0 ≤ x.0} (λ x m. omega arith) l b),
            )
        | inr now_due ↦
            let le = ltb→ge now e.0 now_due in
            let next = rerun now s e l in
            let same = to_take_same now s e l (head_after now s e l f) live in
            let (r, eq, k) =
              loop_ends n now next.done next.rest c next.called (rerun-Fits now s e l f)
                (ground arith) in
            (
              r,
              loop_goes_on n now s next (round_runs now s e l live le) ∙ eq,
              rerun-Ends now s e l f r live le k,
            )
      ]
    ]
  where
    sorted_from : IsSorted (done ++ e ∷ l) → AtLeast e.0 l
    sorted_from h = go done h
      where
        go : (d : List Entry) → IsSorted (d ++ e ∷ l) → AtLeast e.0 l
        go [] (b, _) = b
        go (x ∷ d) (_, h) = go d h
