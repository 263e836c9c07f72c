-- ===== src/Ypipe/Content.antt =====
-- What a pipe holds, as lists, and the invariant of its pointers.
mod Segment
pub mod Writer
pub mod Reader
pub mod Refines
use zeromq.Prelude.{
  ℕ, ◌+◌, ◌-◌, ◌≤◌, ◌<◌, ◌≡◌, Option, none, some, List, [], ◌++◌, ◌∷◌, Bool, true, false,
  if◌then◌else◌, refl,
}
use zeromq.Yqueue
use zeromq.Yqueue.{Yqueue, front_at, back_at, end_at}
use zeromq.Ypipe.{Ypipe}
pub use Segment.{segment, segment-append, segment_congr, segment-snoc}

-- `r` lies between the front and `w`, unless it is NULL.
abbrev pub Prefetched : ℕ → ℕ → Option ℕ → Type 0
Prefetched front w none = Unit
Prefetched front w (some x) = (front ≤ x) × (x ≤ w)

-- While the reader is awake `c` is `w`; it sleeps only when it has read all that was flushed.
abbrev pub Announced : ℕ → ℕ → Option ℕ → Type 0
Announced front w none = front ≡ w
Announced front w (some x) = x ≡ w

pub record IsSound {ℓ} {T : Type ℓ} (n : ℕ) (p : Ypipe T) : Type 0 where
  pub valid : Yqueue.IsValid n p.queue
  pub end_next : end_at n p.queue ≡ back_at n p.queue + 1
  pub front_le : front_at n p.queue ≤ p.w
  pub w_le : p.w ≤ p.f
  pub f_le : p.f ≤ back_at n p.queue
  pub r_fits : Prefetched (front_at n p.queue) p.w p.r
  pub c_fits : Announced (front_at n p.queue) p.w p.c

-- The items that the reader may have, those that the next `flush` hands over, and the beginning of
-- a message whose end was not written yet.
pub record Content {ℓ} (T : Type ℓ) : Type ℓ where
  pub unread : List T
  pub complete : List T
  pub partial : List T

module _ {ℓ} {T : Type ℓ} where
  abbrev pub content : ℕ → Ypipe T → Content T
  content n p =
      let front = front_at n p.queue in
      record {
        unread = segment p.queue.memory front (p.w - front);
        complete = segment p.queue.memory p.w (p.f - p.w);
        partial = segment p.queue.memory p.f (back_at n p.queue - p.f);
      }

  -- The pipe as a queue of lists.
  abbrev pub enqueue : T → Bool → Content T → Content T
  enqueue v incomplete s =
      if incomplete
      then record s { partial = s.partial ++ v ∷ [] }
      else record s { complete = s.complete ++ s.partial ++ v ∷ []; partial = [] }

  abbrev pub hand_over : Content T → Content T
  hand_over s = record s { unread = s.unread ++ s.complete; complete = [] }

  -- `*value_` was the last item of an unfinished message and was taken off, or there was none.
  abbrev pub Unwritten : Content T → Option T → Content T → Type ℓ
  Unwritten s none s' = (s.partial ≡ []) × (s' ≡ s)
  Unwritten s (some v) s' = s ≡ enqueue v true s'

  -- `*value_` was the first unread item and was taken off, or there was none.
  abbrev pub Dequeued : Content T → Option T → Content T → Type ℓ
  Dequeued s none s' = (s.unread ≡ []) × (s' ≡ s)
  Dequeued s (some v) s' = s ≡ record s' { unread = v ∷ s'.unread }
