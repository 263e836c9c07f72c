-- ===== src/Dist/Reachable.antt =====
-- The groups of pipes, whatever is done to them.
use mathlib.Core.Path.{subst}
use zeromq.Prelude.{
  ℕ, zero, suc, ◌+◌, ◌-◌, ◌<◌, ◌≤◌, ◌≡◌, ◌≢◌, refl, sym, ap, ◌∙◌, inl, inr, true, false, arith, ltb,
  Bool-cases, ltb→lt, ltb→ge, lt→ltb,
}
use zeromq.Msg.{Msg}
use zeromq.Array.{Holds, push_back, swap, swap-IsIndexed, push_back-IsIndexed}
use zeromq.Ring.Visit.{Store}
use zeromq.Dist.{
  Dist, new, attach, match, reverse, reverse_match, unmatch, pipe_terminated, activated,
  send_to_all, send_to_matching,
}
use zeromq.Dist.Groups.{IsValid}
use zeromq.Dist.Leave.{IsSound, pipe_terminated-IsSound}
use zeromq.Dist.Spread.{send_to_matching-Distributed}

-- The calls, with what their callers keep to: a pipe that is attached is new, one that is activated is not
-- eligible, and pipes are matched between two messages.
pub data Step (d : Dist) : Dist → Type 0 where
  attach_step : (p : ℕ) → ((i : ℕ) → i < d.pipes.size → d.pipes.items i ≢ p) → Step d (attach p d)
  match_step : (p : ℕ) → Holds p d.pipes → d.more ≡ false → Step d (match p d)
  unmatch_step : Step d (unmatch d)
  reverse_step : d.more ≡ false → Step d (reverse_match d)
  terminated_step : (p : ℕ) → Holds p d.pipes → Step d (pipe_terminated p d)
  activated_step :
      (p : ℕ) → Holds p d.pipes → d.eligible ≤ d.pipes.array_index p → Step d (activated p d)
  all_step : (m : Msg) (s : Store) → Step d (send_to_all m d s).0
  matching_step : (m : Msg) (s : Store) → Step d (send_to_matching m d s).0

pub data Reach : Dist → Type 0 where
  here : Reach new
  next : {d d' : Dist} → Reach d → Step d d' → Reach d'

abbrev suc_of : ℕ → ℕ
suc_of n = n + 1

module _ (d : Dist) (x : IsSound d) where
  attach-IsSound :
      (p : ℕ) → ((i : ℕ) → i < d.pipes.size → d.pipes.items i ≢ p) → IsSound (attach p d)
  unfolding attach swap push_back
  attach-IsSound p fresh =
      let f = x.valid.matching_fits in
      let g = x.valid.active_fits in
      let k = x.valid.eligible_fits in
      let i = push_back-IsIndexed p d.pipes fresh x.valid.indexed in
      let last = d.pipes.size + 1 - 1 in
      elim (Bool-cases d.more) [
        | inl part ↦
            let a = swap d.eligible last (push_back p d.pipes) in
            let d' : Dist = record d { pipes = a; eligible = d.eligible + 1 } in
            let eq : attach p d ≡ d' = rw part refl in
            subst IsSound (sym eq) (record {
              valid = record {
                indexed =
                    swap-IsIndexed d.eligible last (push_back p d.pipes) (omega arith) (omega arith)
                      i;
                matching_fits = f;
                active_fits = omega arith;
                eligible_fits = omega arith;
              };
              level = λ e. absurd cc;
            })
        | inr over ↦
            let a = swap d.active last (push_back p d.pipes) in
            let d' : Dist = record d {
              pipes = a;
              active = d.active + 1;
              eligible = d.eligible + 1;
            } in
            let eq : attach p d ≡ d' = rw over refl in
            subst IsSound (sym eq) (record {
              valid = record {
                indexed =
                    swap-IsIndexed d.active last (push_back p d.pipes) (omega arith) (omega arith)
                      i;
                matching_fits = omega arith;
                active_fits = omega arith;
                eligible_fits = omega arith;
              };
              level = λ e. ap suc_of (x.level e);
            })
      ]

  match-IsSound : (p : ℕ) → Holds p d.pipes → d.more ≡ false → IsSound (match p d)
  unfolding match swap
  match-IsSound p (h, e) over =
      let f = x.valid.matching_fits in
      let g = x.valid.active_fits in
      let k = x.valid.eligible_fits in
      let l = x.level over in
      elim (Bool-cases (ltb (d.pipes.array_index p) d.matching)) [
        | inl in_it ↦ rw in_it x
        | inr not_in ↦ elim (Bool-cases (ltb (d.pipes.array_index p) d.eligible)) [
          | inr no_use ↦ rw (not_in, no_use) x
          | inl can ↦
              let lt = ltb→lt (d.pipes.array_index p) d.eligible can in
              let ge = ltb→ge (d.pipes.array_index p) d.matching not_in in
              rw (not_in, can)
                (record {
                  valid = record {
                    indexed =
                        swap-IsIndexed (d.pipes.array_index p) d.matching d.pipes h (omega arith)
                          x.valid.indexed;
                    matching_fits = omega arith;
                    active_fits = omega arith;
                    eligible_fits = omega arith;
                  };
                  level = x.level;
                })
        ]
      ]

  activated-IsSound :
      (p : ℕ) → Holds p d.pipes → d.eligible ≤ d.pipes.array_index p → IsSound (activated p d)
  unfolding activated swap
  activated-IsSound p (h, e) out =
      let f = x.valid.matching_fits in
      let g = x.valid.active_fits in
      let k = x.valid.eligible_fits in
      let fits : d.eligible < d.pipes.size = omega arith in
      let i = swap-IsIndexed (d.pipes.array_index p) d.eligible d.pipes h fits x.valid.indexed in
      let a = swap (d.pipes.array_index p) d.eligible d.pipes in
      let can : ltb d.eligible d.pipes.size ≡ true = lt→ltb d.eligible d.pipes.size fits in
      elim (Bool-cases d.more) [
        | inl part ↦
            let d' : Dist = record d { pipes = a; eligible = d.eligible + 1 } in
            let eq : activated p d ≡ d' = rw (can, part) refl in
            subst IsSound (sym eq) (record {
              valid = record {
                indexed = i;
                matching_fits = f;
                active_fits = omega arith;
                eligible_fits = omega arith;
              };
              level = λ e. absurd cc;
            })
        | inr over ↦
            let l = x.level over in
            let b = swap (d.eligible + 1 - 1) d.active a in
            let d' : Dist = record d {
              pipes = b;
              active = d.active + 1;
              eligible = d.eligible + 1;
            } in
            let room : ltb d.active d.pipes.size ≡ true =
              lt→ltb d.active d.pipes.size (omega arith) in
            let eq : activated p d ≡ d' = rw (can, over, room) refl in
            subst IsSound (sym eq) (record {
              valid = record {
                indexed =
                    swap-IsIndexed (d.eligible + 1 - 1) d.active a (omega arith) (omega arith) i;
                matching_fits = omega arith;
                active_fits = omega arith;
                eligible_fits = omega arith;
              };
              level = λ e. ap suc_of (x.level e);
            })
      ]

-- The loop of `reverse_match` fills the front from the places `i` on.
reverse-IsSound :
    (n i : ℕ) (d : Dist)
    → IsValid d
    → d.active ≡ d.eligible
    → d.matching ≤ i
    → i + n ≤ d.eligible
    → IsSound (reverse n i d)
unfolding reverse swap
reverse-IsSound zero i d v l f g = record { valid = v; level = λ _. l }
reverse-IsSound (suc n) i d v l f g =
    let a = v.matching_fits in
    let b = v.active_fits in
    let c = v.eligible_fits in
    reverse-IsSound n (i + 1)
      (record d { pipes = swap i d.matching d.pipes; matching = d.matching + 1 })
      (record {
        indexed = swap-IsIndexed i d.matching d.pipes (omega arith) (omega arith) v.indexed;
        matching_fits = omega arith;
        active_fits = b;
        eligible_fits = c;
      })
      l (omega arith) (omega arith)

cleared : (d : Dist) → IsValid d → IsValid (record d { matching = 0 })
cleared d v = record {
  indexed = v.indexed;
  matching_fits = omega arith;
  active_fits = v.active_fits;
  eligible_fits = v.eligible_fits;
}

all_match : (d : Dist) → IsValid d → IsValid (record d { matching = d.active })
all_match d v = record {
  indexed = v.indexed;
  matching_fits = omega arith;
  active_fits = v.active_fits;
  eligible_fits = v.eligible_fits;
}

distributed-IsSound :
    (m : Msg) (d : Dist) (s : Store) → IsValid d → IsSound (send_to_matching m d s).0
distributed-IsSound m d s v =
    let r = send_to_matching-Distributed m d s v in
    record { valid = r.valid; level = λ e. r.at_end (sym r.more ∙ e) }

Step-IsSound : {d d' : Dist} → Step d d' → IsSound d → IsSound d'
unfolding reverse_match send_to_all
Step-IsSound {d} (attach_step p fresh) x = attach-IsSound d x p fresh
Step-IsSound {d} (match_step p h over) x = match-IsSound d x p h over
Step-IsSound {d} unmatch_step x = record { valid = cleared d x.valid; level = x.level }
Step-IsSound {d} (reverse_step over) x =
    let f = x.valid.matching_fits in
    let g = x.valid.active_fits in
    reverse-IsSound (d.eligible - d.matching) d.matching (record d { matching = 0 })
      (cleared d x.valid) (x.level over) (omega arith) (omega arith)
Step-IsSound {d} (terminated_step p h) x = pipe_terminated-IsSound p d h x
Step-IsSound {d} (activated_step p h out) x = activated-IsSound d x p h out
Step-IsSound {d} (all_step m s) x =
    distributed-IsSound m (record d { matching = d.active }) s (all_match d x.valid)
Step-IsSound {d} (matching_step m s) x = distributed-IsSound m d s x.valid

-- Whatever calls are made from a new distributor on: every pipe is at the place that it stores, the matching
-- pipes are active, the active ones eligible, and between two messages every eligible pipe is active.
pub Reach-IsSound : {d : Dist} → Reach d → IsSound d
Reach-IsSound here = record {
  valid = record {
    indexed = record { at = λ i h. absurd (omega arith) };
    matching_fits = omega arith;
    active_fits = omega arith;
    eligible_fits = omega arith;
  };
  level = λ _. refl;
}
Reach-IsSound (next r st) = Step-IsSound st (Reach-IsSound r)
