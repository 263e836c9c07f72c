-- ===== src/Ring/Steps.antt =====
-- The operations on the list of pipes keep it in order.
use zeromq.Prelude.{ℕ, ◌+◌, ◌-◌, ◌<◌, ◌≤◌, inl, inr, arith, ltb, Bool-cases, ltb→lt, ltb→ge, lt→ltb}
use native.Mathlib.Nat.{mod-lt}
use zeromq.Array.{Holds, swap, erase, swap-IsIndexed, swap-Holds, erase-IsIndexed}
use zeromq.Ring.{Ring, IsValid, activated, deactivate, remove, advance}

pub activated-IsValid :
    (p : ℕ) (r : Ring)
    → Holds p r.pipes
    → r.active ≤ r.pipes.array_index p
    → IsValid r
    → IsValid (activated p r)
unfolding activated swap
activated-IsValid p r (h, e) idle v = record {
  indexed = swap-IsIndexed (r.pipes.array_index p) r.active r.pipes h (omega arith) v.indexed;
  fits = omega arith;
  inside = let i = v.inside in omega arith;
}

pub deactivate-IsValid : (i : ℕ) (r : Ring) → i < r.active → IsValid r → IsValid (deactivate i r)
unfolding swap
deactivate-IsValid i r h v =
    let f = v.fits in
    let c = v.inside in
    record {
      indexed = swap-IsIndexed i (r.active - 1) r.pipes (omega arith) (omega arith) v.indexed;
      fits = omega arith;
      inside = ground arith;
    }

pub advance-IsValid : (r : Ring) → 0 < r.active → IsValid r → IsValid (advance r)
advance-IsValid r h v =
    let b = mod-lt (r.current + 1) h in
    record { indexed = v.indexed; fits = v.fits; inside = omega arith }

erased-IsValid :
    (p : ℕ) (r : Ring)
    → Holds p r.pipes
    → r.active < r.pipes.size
    → IsValid r
    → IsValid (record r { pipes = erase p r.pipes })
unfolding erase
erased-IsValid p r h below v = record {
  indexed = erase-IsIndexed p r.pipes h v.indexed;
  fits = omega arith;
  inside = v.inside;
}

pub remove-IsValid : (p : ℕ) (r : Ring) → Holds p r.pipes → IsValid r → IsValid (remove p r)
unfolding remove swap
remove-IsValid p r (h, e) v =
    let f = v.fits in
    elim (Bool-cases (ltb (r.pipes.array_index p) r.active)) [
      | inl lt ↦
          let below = ltb→lt (r.pipes.array_index p) r.active lt in
          rw lt (
            erased-IsValid p (deactivate (r.pipes.array_index p) r)
              (swap-Holds p (r.pipes.array_index p) (r.active - 1) r.pipes h (omega arith) v.indexed
                (h, e))
              (omega arith) (deactivate-IsValid (r.pipes.array_index p) r below v))
      | inr ge ↦
          let above = ltb→ge (r.pipes.array_index p) r.active ge in
          rw ge (erased-IsValid p r (h, e) (omega arith) v)
    ]

-- While a pipe before the last active one goes, the current one is not past the active ones.
pub remove_inside :
    (p : ℕ) (r : Ring)
    → r.pipes.array_index p < r.current
    → r.current < r.active
    → (remove p r).current < (remove p r).active
unfolding remove
remove_inside p r below h =
    rw (lt→ltb (r.pipes.array_index p) r.active (omega arith)) (ground arith)
