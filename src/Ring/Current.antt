-- ===== src/Ring/Current.antt =====
-- Which pipe is the current one after another has gone.
use zeromq.Prelude.{ℕ, ◌+◌, ◌-◌, ◌<◌, ◌≡◌, ◌≢◌, ◌⊎◌, arith}
use zeromq.Array.{Holds, swap, erase}
use zeromq.Ring.{Ring, IsValid, remove}

abbrev pub current_pipe : Ring → ℕ
current_pipe r = r.pipes.items r.current

module _ (p : ℕ) (r : Ring) (h : Holds p r.pipes) (v : IsValid r)
    (some_active : r.current < r.active) (other : p ≢ current_pipe r) where
  pub remove_keeps :
      ((r.pipes.array_index p ≡ 0) ⊎ (r.current < r.pipes.array_index p))
        ⊎ (r.current + 1 < r.active)
      → current_pipe (remove p r) ≡ current_pipe r
  unfolding remove swap erase
  remove_keeps c =
      let (hi, ei) = h in
      let f = v.fits in
      let ec = v.indexed.at r.current (omega arith) in
      let el = v.indexed.at (r.active - 1) (omega arith) in
      let eb = v.indexed.at (r.pipes.size - 1) (omega arith) in grind arith

  pub remove_strays :
      0 < r.pipes.array_index p
      → r.pipes.array_index p < r.current
      → r.current + 1 ≡ r.active
      → current_pipe (remove p r) ≢ current_pipe r
  unfolding remove swap erase
  remove_strays above below last =
      let (hi, ei) = h in
      let f = v.fits in
      let ec = v.indexed.at r.current (omega arith) in
      let e0 = v.indexed.at 0 (omega arith) in
      let el = v.indexed.at (r.active - 1) (omega arith) in
      let eb = v.indexed.at (r.pipes.size - 1) (omega arith) in λ e. grind arith
