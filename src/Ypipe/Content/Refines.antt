-- ===== src/Ypipe/Content/Refines.antt =====
-- The pipe as a queue of lists: what each method does to the content.
use zeromq.Prelude.{ℕ, ◌≡◌, ◌<◌, ◌↔◌, Bool, false, none}
use zeromq.Ypipe.{Ypipe, write, unwrite, flush, read}
use zeromq.Ypipe.Content.{IsSound, content, enqueue, hand_over, Unwritten, Dequeued}
use zeromq.Ypipe.Content.Writer
use zeromq.Ypipe.Content.Reader

-- The methods on the pipe `p`, against the operations on its content.
pub record Refines {ℓ} {T : Type ℓ} (n : ℕ) (p : Ypipe T) (v : T) (incomplete : Bool) : Type ℓ where
  pub enqueues : content n (write n v incomplete p) ≡ enqueue v incomplete (content n p)
  pub takes_back : Unwritten (content n p) (unwrite n p).0 (content n (unwrite n p).1)
  pub hands_over : content n (flush n p).1 ≡ hand_over (content n p)
  pub asks_to_wake : ((flush n p).0 ≡ false) ↔ ((p.c ≡ none) × (p.w < p.f))
  pub dequeues : Dequeued (content n p) (read n p).0 (content n (read n p).1)
  pub write_sound : IsSound n (write n v incomplete p)
  pub unwrite_sound : IsSound n (unwrite n p).1
  pub flush_sound : IsSound n (flush n p).1
  pub read_sound : IsSound n (read n p).1

-- On a sound pipe the four methods are operations of a queue, and leave the pipe sound: `write` appends to the
-- message that is being written, and completes it unless told otherwise; `unwrite` takes back the last write of
-- an unfinished message, and nothing else; `flush` hands over every item that is complete, and no other, and
-- asks for the reader to be woken exactly if it sleeps and there are new complete items; `read` takes the first
-- item that was flushed and not read, if there is one, and fails only if there is none.
pub IsSound-Refines {ℓ} :
    {T : Type ℓ} (n : ℕ) (p : Ypipe T) (v : T) (incomplete : Bool)
    → IsSound n p
    → Refines n p v incomplete
IsSound-Refines n p v incomplete s = record {
  enqueues = Writer.content-write n p s v incomplete;
  takes_back = Writer.unwrite-Unwritten n p s;
  hands_over = Writer.content-flush n p s;
  asks_to_wake = Writer.flush-eq-false n p s;
  dequeues = Reader.read-Dequeued n p s;
  write_sound = Writer.write-IsSound n p s v incomplete;
  unwrite_sound = Writer.unwrite-IsSound n p s;
  flush_sound = Writer.flush-IsSound n p s;
  read_sound = Reader.read-IsSound n p s;
}
