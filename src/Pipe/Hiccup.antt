-- ===== src/Pipe/Hiccup.antt =====
-- A hiccup: the reading end replaces its queue, and the writing end takes the old one apart.
use zeromq.Prelude.{
  ℕ, ◌+◌, ◌-◌, ◌%◌, ◌^◌, true, Option, none, some, List, [], ◌∷◌, if◌then◌else◌, require,
}
use zeromq.Msg.{Msg}
use zeromq.Pipe.{Pipe, Queue, Ends, hiccuped, notify, is_active, new_queue}
use zeromq.Pipe.Write.{flush_queue}

-- `hiccup`: the queue that is sent to the peer, and the end with it.
unfoldable pub hiccup : Ends → Option Queue × Ends
hiccup e =
    let p : Pipe = record e.pipe { in_active = true } in
    if is_active e.pipe.state
    then (some new_queue, record e { inpipe = new_queue; pipe = p })
    else (none, e)

-- `msgs_written--`, in 64 bits.
abbrev minus_one : ℕ → ℕ
minus_one n = (n + (2 ^ 64 - 1)) % 2 ^ 64

-- The loop that reads the old queue.
unfoldable pub take_apart : List Msg → ℕ → ℕ
take_apart [] written = written
take_apart (m ∷ ms) written = take_apart ms (if m.more then written else minus_one written)

unfoldable pub process_hiccup : Queue → Ends → Option Ends
unfolding take_apart
process_hiccup new_outpipe e =
    let (awake, q) = flush_queue e.outpipe in
    let p : Pipe = record e.pipe {
      msgs_written = take_apart q.content.unread e.pipe.msgs_written;
      out_active = true;
    } in
    let e' : Ends = record e { pipe = p; outpipe = new_outpipe } in
    require e.pipe.has_out (some (if is_active e.pipe.state then notify hiccuped e' else e'))
