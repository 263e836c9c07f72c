-- ===== src/Pipe/Write.antt =====
-- The writing half of `pipe_t`.
use zeromq.Prelude.{
  ℕ, ◌+◌, ◌%◌, ◌^◌, Bool, true, false, not, ◌&&◌, ◌||◌, Option, some, List, [], ◌∷◌, if◌then◌else◌,
  require,
}
use zeromq.Msg.{Msg}
use zeromq.Ypipe.Content.{Content, enqueue, hand_over}
use zeromq.Pipe.{
  Pipe, Queue, Ends, State, term_ack_sent, activate_read, write_activated, send, notify, is_active,
  check_hwm,
}

abbrev pub set_out_active : Bool → Ends → Ends
set_out_active b e = let p : Pipe = record e.pipe { out_active = b } in record e { pipe = p }

abbrev pub set_out : Content Msg → Ends → Ends
set_out c e = let q : Queue = record e.outpipe { content = c } in record e { outpipe = q }

-- `outpipe->write (msg, incomplete)`
abbrev pub put : Msg → Bool → Ends → Ends
put m incomplete e = set_out (enqueue m incomplete e.outpipe.content) e

unfoldable pub check_write : Ends → Bool × Ends
check_write e =
    if not e.pipe.out_active || not (is_active e.pipe.state)
    then (false, e)
    else if not (check_hwm e.pipe)
    then (false, set_out_active false e)
    else (true, e)

unfoldable pub write : Msg → Ends → Bool × Ends
write m e =
    let (room, e') = check_write e in
    let p : Pipe = record e'.pipe { msgs_written = (e'.pipe.msgs_written + 1) % 2 ^ 64 } in
    let counted : Ends = record e' { pipe = p } in
    if room
    then (true, if not m.more && not m.identity then put m m.more counted else put m m.more e')
    else (false, e')

-- The loop of `rollback` over the unfinished message.
abbrev pub all_more : List Msg → Bool
all_more [] = true
all_more (m ∷ ms) = m.more && all_more ms

unfoldable pub rollback : Ends → Option Ends
rollback e =
    let c : Content Msg = record e.outpipe.content { partial = [] } in
    if e.pipe.has_out
    then require (all_more e.outpipe.content.partial) (some (set_out c e))
    else some e

abbrev pub no_news : List Msg → Bool
no_news [] = true
no_news (m ∷ ms) = false

-- `outpipe->flush ()`: whether the reader is awake, and the queue after it.
unfoldable pub flush_queue : Queue → Bool × Queue
flush_queue q =
    if no_news q.content.complete
    then (true, q)
    else (not q.asleep, record { content = hand_over q.content; asleep = false })

abbrev pub is_term_ack_sent : State → Bool
is_term_ack_sent s = elim s [ term_ack_sent ↦ true | _ ↦ false ]

unfoldable pub flush : Ends → Ends
unfolding flush_queue
flush e =
    let (awake, q) = flush_queue e.outpipe in
    let e' : Ends = record e { outpipe = q } in
    if is_term_ack_sent e.pipe.state || not e.pipe.has_out
    then e
    else if awake
    then e'
    else send activate_read e'

unfoldable pub process_activate_write : ℕ → Ends → Ends
process_activate_write msgs_read e =
    let p : Pipe = record e.pipe { peers_msgs_read = msgs_read } in
    let e' : Ends = record e { pipe = p } in
    if not e.pipe.out_active && is_active e.pipe.state
    then notify write_activated (set_out_active true e')
    else e'
