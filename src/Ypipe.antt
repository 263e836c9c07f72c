-- ===== src/Ypipe.antt =====
-- src/ypipe.hpp: the lock-free pipe between one writer and one reader thread.
-- A pointer to an element is the element's address in the queue, see Yqueue.antt; NULL is `none`.
-- `n` is the template's N throughout.
pub mod Content
pub mod Steps
mod Tests
use zeromq.Prelude.{ℕ, Bool, true, false, Option, none, some, ◌==◌, if◌then◌else◌, not, ◌&&◌}
use zeromq.Yqueue
use zeromq.Yqueue.{Yqueue, front_at, back_at, front, back, assign_back, push, unpush, pop}

pub record Ypipe {ℓ} (T : Type ℓ) : Type ℓ where
  pub queue : Yqueue T
  pub w : ℕ
  pub r : Option ℕ
  pub f : ℕ
  pub c : Option ℕ

-- Comparison of two pointers.
abbrev pub is_at : ℕ → Option ℕ → Bool
is_at a none = false
is_at a (some b) = a == b

-- `c.cas (cmp, val)` of src/atomic_ptr.hpp: what `c` becomes; the call returns what `c` was.
abbrev pub cas : Option ℕ → ℕ → Option ℕ → Option ℕ
cas c cmp val = if is_at cmp c then val else c

module _ {ℓ} {T : Type ℓ} (n : ℕ) where
  -- The constructor pushes the terminator and points everything to it.
  unfoldable pub new : (ℕ → T) → Ypipe T
  unfolding Yqueue.new push
  new junk =
      let q = push n (Yqueue.new junk) in
      record {
        queue = q;
        w = back_at n q;
        r = some (back_at n q);
        f = back_at n q;
        c = some (back_at n q);
      }

  unfoldable pub write : T → Bool → Ypipe T → Ypipe T
  write value incomplete p =
      let q = push n (assign_back n value p.queue) in
      record p { queue = q; f = if incomplete then p.f else back_at n q }

  -- The item that `*value_` receives, or `none` for the result `false`.
  unfoldable pub unwrite : Ypipe T → Option T × Ypipe T
  unwrite p =
      let q = unpush n p.queue in
      if p.f == back_at n p.queue then (none, p) else (some (back n q), record p { queue = q })

  -- The two accesses to `c` in `flush`. The first is the compare-and-swap of `w` by `f`. It fails
  -- if the reader sleeps, and only then the second is made, with no atomic operation.
  unfoldable pub flush_cas : Ypipe T → Ypipe T
  flush_cas p = record p { w = if is_at p.w p.c then p.f else p.w; c = cas p.c p.w (some p.f) }

  unfoldable pub flush_wake : Ypipe T → Ypipe T
  flush_wake p = record p { w = p.f; c = some p.f }

  -- `false` means that the reader sleeps and has to be woken.
  unfoldable pub flush : Ypipe T → Bool × Ypipe T
  unfolding flush_cas flush_wake
  flush p =
      if p.w == p.f
      then (true, p)
      else if is_at p.w p.c
      then (true, flush_cas p)
      else (false, flush_wake (flush_cas p))

  -- `&queue.front () != r && r`
  unfoldable pub prefetched : Ypipe T → Bool
  prefetched p = elim p.r [ none ↦ false | some x ↦ not (front_at n p.queue == x) ]

  -- `r = c.cas (&queue.front (), NULL)`
  unfoldable pub prefetch : Ypipe T → Ypipe T
  prefetch p = record p { r = p.c; c = cas p.c (front_at n p.queue) none }

  unfoldable pub check_read : Ypipe T → Bool × Ypipe T
  unfolding prefetched prefetch
  check_read p = if prefetched p then (true, p) else (prefetched (prefetch p), prefetch p)

  -- The item that `*value_` receives, or `none` for the result `false`.
  unfoldable pub read : Ypipe T → Option T × Ypipe T
  read p =
      let (available, p') = check_read p in
      if available
      then (some (front n p'.queue), record p' { queue = pop n p'.queue })
      else (none, p')

  -- `none` is the failed assertion on a pipe that has nothing to read.
  unfoldable pub probe : (T → Bool) → Ypipe T → Option Bool × Ypipe T
  probe fn p =
      let (available, p') = check_read p in
      if available then (some (fn (front n p'.queue)), p') else (none, p')
