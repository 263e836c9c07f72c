-- ===== src/Ypipe/Tests.antt =====
-- The theorems on src/ypipe.hpp at a run: two items are written and flushed, and one is read.
use zeromq.Prelude.{[], ◌∷◌, ◌++◌, not, ℕ, ◌≡◌, refl, true, false, none, arith}
use zeromq.Yqueue
use zeromq.Yqueue.{push, pop, assign_back}
use zeromq.Ypipe.{Ypipe, is_at, new, write, flush_cas, prefetched, prefetch, check_read, read}
use zeromq.Ypipe.Content.{IsSound, content}
use zeromq.Ypipe.Content.Writer.{new-IsSound, write-IsSound}
use zeromq.Ypipe.Content.Refines.{Refines, IsSound-Refines}
use zeromq.Ypipe.Steps.{
  Threads, to_list, start, flush_step, write_step, read_step, Reach, here, next, IsFifo,
  Reach-start-IsFifo, Reach-no_lost_wakeup,
}

abbrev fresh : Ypipe ℕ
fresh = new 2 (λ a. 0)

fresh-IsSound : IsSound 2 fresh
fresh-IsSound = new-IsSound 2 (λ a. 0) (omega arith)

abbrev written : Ypipe ℕ
written = write 2 5 true (write 2 4 false fresh)

written-IsSound : IsSound 2 written
written-IsSound =
    write-IsSound 2 (write 2 4 false fresh) (write-IsSound 2 fresh fresh-IsSound 4 false) 5 true

IsSound-Refines_example : Refines 2 written 6 false
IsSound-Refines_example = IsSound-Refines 2 written 6 false written-IsSound

-- One item is written, flushed and read, and a second read finds nothing.
abbrev after_write : Threads ℕ
after_write = record (start 2 (λ a. 0)) {
  pipe = write 2 4 false (start 2 (λ a. 0)).pipe;
  given = 4 ∷ [];
}

abbrev after_flush : Threads ℕ
after_flush = record after_write {
  pipe = flush_cas 2 after_write.pipe;
  waking = not (is_at after_write.pipe.w after_write.pipe.c);
}

abbrev after_read : Threads ℕ
after_read = record after_flush {
  pipe = (read 2 after_flush.pipe).1;
  taken = after_flush.taken ++ to_list (read 2 after_flush.pipe).0;
}

abbrev asleep : Threads ℕ
asleep = record after_read {
  pipe = (read 2 after_read.pipe).1;
  taken = after_read.taken ++ to_list (read 2 after_read.pipe).0;
}

run : Reach 2 (start 2 (λ a. 0)) asleep
unfolding start new Yqueue.new push assign_back write
run =
    next
      (next
        (next (next here (write_step (start 2 (λ a. 0)) 4 false refl))
          (flush_step after_write refl refl))
        (read_step after_flush))
      (read_step after_read)

is_asleep : asleep.pipe.c ≡ none
unfolding start new Yqueue.new push assign_back write flush_cas read check_read prefetched prefetch
    pop
is_asleep = refl

Reach-start-IsFifo_example : IsFifo 2 asleep
Reach-start-IsFifo_example = Reach-start-IsFifo 2 (λ a. 0) (omega arith) run

Reach-no_lost_wakeup_example : (content 2 asleep.pipe).unread ≡ []
Reach-no_lost_wakeup_example = Reach-no_lost_wakeup 2 (λ a. 0) (omega arith) run is_asleep
