-- ===== src/Ring.antt =====
-- src/lb.cpp and src/fq.cpp: the list of pipes that the load balancer and the fair queue both keep, with
-- the same code. The first `active` pipes can be used, and `current` is the next one.
pub mod Steps
pub mod Current
pub mod Dropped
pub mod Visit
pub mod Tests
use zeromq.Prelude.{
  ℕ, suc, ◌+◌, ◌-◌, ◌<◌, ◌≤◌, ◌≡◌, ◌%◌, Bool, true, false, ltb, ◌==◌, if◌then◌else◌,
}
use zeromq.Array
use zeromq.Array.{Array, empty_array, IsIndexed, push_back, swap, erase}

pub record Ring : Type 0 where
  pub pipes : Array
  pub active : ℕ
  pub current : ℕ

abbrev pub new_ring : Ring
new_ring = record { pipes = empty_array; active = 0; current = 0 }

-- `activated`
unfoldable pub activated : ℕ → Ring → Ring
activated p r = record r {
  pipes = swap (r.pipes.array_index p) r.active r.pipes;
  active = r.active + 1;
}

-- The part of `pipe_terminated` for a pipe that is active.
abbrev pub deactivate : ℕ → Ring → Ring
deactivate index r =
    let active = r.active - 1 in
    record {
      pipes = swap index active r.pipes;
      active = active;
      current = if r.current == active then 0 else r.current;
    }

-- `pipe_terminated`
unfoldable pub remove : ℕ → Ring → Ring
remove p r =
    let index = r.pipes.array_index p in
    let r' : Ring = if ltb index r.active then deactivate index r else r in
    record r' { pipes = erase p r'.pipes }

-- `current = (current + 1) % active`
abbrev pub advance : Ring → Ring
advance r = record r { current = (r.current + 1) % r.active }

-- `active--` in `sendpipe`: the pipe that refused goes behind those that are active.
abbrev pub pass_over : Ring → Ring
pass_over r =
    let active = r.active - 1 in
    if ltb r.current active
    then record r { pipes = swap r.current active r.pipes; active = active }
    else record r { active = active; current = 0 }

pub record IsValid (r : Ring) : Type 0 where
  pub indexed : IsIndexed r.pipes
  pub fits : r.active ≤ r.pipes.size
  pub inside : r.current ≤ r.active - 1

-- The pipe is among those that can be used.
abbrev pub IsActive : ℕ → Ring → Type 0
IsActive p r = (i : ℕ) × (i < r.active) × (r.pipes.items i ≡ p)
