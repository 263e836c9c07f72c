-- ===== src/Dist/Leave.antt =====
-- A pipe leaves the groups one after the other.
use mathlib.Core.Path.{subst}
use zeromq.Prelude.{
  ℕ, ◌+◌, ◌-◌, ◌<◌, ◌≤◌, ◌≡◌, false, inl, inr, arith, ltb, Bool-cases, ltb→lt, ltb→ge,
}
use zeromq.Array.{Array, IsIndexed, Holds, swap, erase, swap-IsIndexed, swap-Holds, erase-IsIndexed}
use zeromq.Dist.{Dist, leave_matching, leave_active, leave_eligible, pipe_terminated}
use zeromq.Dist.Groups.{IsValid, index_swap}

-- Between two messages every pipe that can be written to is active.
pub record IsSound (d : Dist) : Type 0 where
  pub valid : IsValid d
  pub level : d.more ≡ false → d.active ≡ d.eligible

-- The pipe is not among the first `n`.
pub record Behind (p : ℕ) (n : ℕ) (a : Array) : Type 0 where
  pub indexed : IsIndexed a
  pub holds : Holds p a
  pub behind : n ≤ a.array_index p

-- The place `n` is the pipe's after it has been exchanged.
exchanged :
    (p n : ℕ) (a : Array)
    → IsIndexed a
    → Holds p a
    → n < a.size
    → Behind p n (swap (a.array_index p) n a) × ((swap (a.array_index p) n a).array_index p ≡ n)
unfolding swap
exchanged p n a x (h, e) hn =
    let k =
      subst (λ q. (swap (a.array_index p) n a).array_index q ≡ n) e
        (index_swap (a.array_index p) n a h hn x) in
    (
      record {
        indexed = swap-IsIndexed (a.array_index p) n a h hn x;
        holds = swap-Holds p (a.array_index p) n a h hn x (h, e);
        behind = omega (arith, k);
      },
      k,
    )

left_matching :
    (p : ℕ) (d : Dist)
    → Holds p d.pipes
    → IsSound d
    → IsSound (leave_matching p d)
      × Behind p (leave_matching p d).matching (leave_matching p d).pipes
unfolding swap
left_matching p d (h, e) x =
    let f = x.valid.matching_fits in
    let g = x.valid.active_fits in
    let k = x.valid.eligible_fits in
    elim (Bool-cases (ltb (d.pipes.array_index p) d.matching)) [
      | inr out ↦
          let ge = ltb→ge (d.pipes.array_index p) d.matching out in
          rw out (x, record { indexed = x.valid.indexed; holds = (h, e); behind = ge })
      | inl ins ↦
          let lt = ltb→lt (d.pipes.array_index p) d.matching ins in
          let (b, _) = exchanged p (d.matching - 1) d.pipes x.valid.indexed (h, e) (omega arith) in
          rw ins (
            record {
              valid = record {
                indexed = b.indexed;
                matching_fits = omega arith;
                active_fits = g;
                eligible_fits = k;
              };
              level = x.level;
            },
            b,
          )
    ]

-- The pipe is behind the active ones, and it is the only one between them and the end of the eligible ones.
pub record Loose (p : ℕ) (d : Dist) : Type 0 where
  pub valid : IsValid d
  pub behind : Behind p d.active d.pipes
  pub with_it : d.more ≡ false → d.pipes.array_index p < d.eligible → d.active + 1 ≡ d.eligible
  pub without_it : d.more ≡ false → d.eligible ≤ d.pipes.array_index p → d.active ≡ d.eligible

left_active :
    (p : ℕ) (d : Dist) → IsSound d → Behind p d.matching d.pipes → Loose p (leave_active p d)
unfolding swap
left_active p d x b =
    let (h, e) = b.holds in
    let f = x.valid.matching_fits in
    let g = x.valid.active_fits in
    let k = x.valid.eligible_fits in
    let after = b.behind in
    elim (Bool-cases (ltb (d.pipes.array_index p) d.active)) [
      | inr out ↦
          let ge = ltb→ge (d.pipes.array_index p) d.active out in
          rw out (record {
            valid = x.valid;
            behind = record { indexed = b.indexed; holds = b.holds; behind = ge };
            with_it = λ m l. (let s = x.level m in absurd (omega arith));
            without_it = λ m _. x.level m;
          })
      | inl ins ↦
          let lt = ltb→lt (d.pipes.array_index p) d.active ins in
          let (b', i) = exchanged p (d.active - 1) d.pipes b.indexed b.holds (omega arith) in
          rw ins (record {
            valid = record {
              indexed = b'.indexed;
              matching_fits = omega arith;
              active_fits = omega arith;
              eligible_fits = k;
            };
            behind = b';
            with_it = λ m _. (let s = x.level m in omega arith);
            without_it = λ m l. (let s = x.level m in absurd (omega (arith, i)));
          })
    ]

left_eligible :
    (p : ℕ) (d : Dist)
    → Loose p d
    → IsSound (leave_eligible p d)
      × Behind p (leave_eligible p d).eligible (leave_eligible p d).pipes
unfolding swap
left_eligible p d x =
    let (h, e) = x.behind.holds in
    let f = x.valid.matching_fits in
    let g = x.valid.active_fits in
    let k = x.valid.eligible_fits in
    let after = x.behind.behind in
    elim (Bool-cases (ltb (d.pipes.array_index p) d.eligible)) [
      | inr out ↦
          let ge = ltb→ge (d.pipes.array_index p) d.eligible out in
          rw out (
            record { valid = x.valid; level = λ m. x.without_it m ge },
            record { indexed = x.valid.indexed; holds = x.behind.holds; behind = ge },
          )
      | inl ins ↦
          let lt = ltb→lt (d.pipes.array_index p) d.eligible ins in
          let (b', i) =
            exchanged p (d.eligible - 1) d.pipes x.valid.indexed x.behind.holds (omega arith) in
          rw ins (
            record {
              valid = record {
                indexed = b'.indexed;
                matching_fits = f;
                active_fits = omega arith;
                eligible_fits = omega arith;
              };
              level = λ m. (let s = x.with_it m lt in omega arith);
            },
            b',
          )
    ]

erased :
    (p : ℕ) (d : Dist)
    → IsSound d
    → Behind p d.eligible d.pipes
    → IsSound (record d { pipes = erase p d.pipes })
unfolding erase
erased p d x b =
    let (h, e) = b.holds in
    let after = b.behind in
    record {
      valid = record {
        indexed = erase-IsIndexed p d.pipes b.holds b.indexed;
        matching_fits = x.valid.matching_fits;
        active_fits = x.valid.active_fits;
        eligible_fits = omega arith;
      };
      level = x.level;
    }

pub pipe_terminated-IsSound :
    (p : ℕ) (d : Dist) → Holds p d.pipes → IsSound d → IsSound (pipe_terminated p d)
unfolding pipe_terminated
pipe_terminated-IsSound p d h x =
    let (y, b) = left_matching p d h x in
    let d1 = leave_matching p d in
    let z = left_active p d1 y b in
    let (w, c) = left_eligible p (leave_active p d1) z in
    erased p (leave_eligible p (leave_active p d1)) w c
