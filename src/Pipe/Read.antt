-- ===== src/Pipe/Read.antt =====
-- The reading half of `pipe_t`.
use zeromq.Prelude.{
  ℕ, ◌+◌, ◌%◌, ◌^◌, Bool, true, false, not, ◌&&◌, ◌||◌, Option, none, some, List, [], ◌∷◌, ltb,
  ◌==◌, if◌then◌else◌, require, ◌>>=◌, ℤ, pos, negsuc,
}
use zeromq.Msg.{Msg}
use zeromq.Ypipe.Content.{Content}
use zeromq.Pipe.{
  Pipe, Queue, Ends, State, delimiter_received, term_ack_sent, activate_write, pipe_term_ack,
  read_activated, send, notify, set_state, is_active, is_waiting,
}

-- `state == active || state == waiting_for_delimiter`
abbrev pub is_readable : State → Bool
is_readable s = is_active s || is_waiting s

-- `outpipe = NULL; send_pipe_term_ack (peer); state = term_ack_sent`
abbrev pub acknowledge : State → Ends → Ends
acknowledge s e =
    let p : Pipe = record e.pipe { state = s; has_out = false } in
    send pipe_term_ack (record e { pipe = p })

unfoldable pub process_delimiter : Ends → Option Ends
process_delimiter e = require (is_readable e.pipe.state) (
    some (
      if is_active e.pipe.state
      then set_state delimiter_received e
      else acknowledge term_ack_sent e))

-- What is unread, and the flag that the reader sets when it finds nothing.
abbrev pub set_unread : List Msg → Ends → Ends
set_unread ms e =
    let c : Content Msg = record e.inpipe.content { unread = ms } in
    let q : Queue = record e.inpipe { content = c } in record e { inpipe = q }

abbrev pub fall_asleep : Ends → Ends
fall_asleep e =
    let q : Queue = record e.inpipe { asleep = true } in
    let p : Pipe = record e.pipe { in_active = false } in record e { inpipe = q; pipe = p }

abbrev pub check_first : List Msg → Ends → Option (Bool × Ends)
check_first [] e = some (false, fall_asleep e)
check_first (m ∷ ms) e =
    if m.delimiter
    then (process_delimiter (set_unread ms e) >>= λ e'. some (false, e'))
    else some (true, e)

unfoldable pub check_read : Ends → Option (Bool × Ends)
check_read e =
    if not e.pipe.in_active || not (is_readable e.pipe.state)
    then some (false, e)
    else check_first e.inpipe.content.unread e

-- `lwm > 0 && msgs_read % lwm == 0`
abbrev pub at_lwm : ℤ → ℕ → Bool
at_lwm (pos n) count = ltb 0 n && count % n == 0
at_lwm (negsuc n) count = false

-- The end of `read`: the message is counted, and the peer is told at every `lwm`-th.
unfoldable pub count_read : Msg → Ends → Ends
count_read m e =
    let count =
      if not m.more && not m.identity then (e.pipe.msgs_read + 1) % 2 ^ 64 else e.pipe.msgs_read in
    let p : Pipe = record e.pipe { msgs_read = count } in
    if at_lwm p.lwm count
    then send (activate_write count) (record e { pipe = p })
    else record e { pipe = p }

-- `read_message`, which goes on after a credential.
unfoldable pub read_message : List Msg → Ends → Option (Option Msg × Ends)
unfolding count_read
read_message [] e = some (none, fall_asleep e)
read_message (m ∷ ms) e =
    let p : Pipe = record e.pipe { credential = m.body } in
    let after_credential = read_message ms (record (set_unread ms e) { pipe = p }) in
    if m.credential
    then after_credential
    else if m.delimiter
    then (process_delimiter (set_unread ms e) >>= λ e'. some (none, e'))
    else some (some m, count_read m (set_unread ms e))

unfoldable pub read : Ends → Option (Option Msg × Ends)
read e =
    if not e.pipe.in_active || not (is_readable e.pipe.state)
    then some (none, e)
    else read_message e.inpipe.content.unread e

unfoldable pub process_activate_read : Ends → Ends
process_activate_read e =
    let p : Pipe = record e.pipe { in_active = true } in
    if not e.pipe.in_active && is_readable e.pipe.state
    then notify read_activated (record e { pipe = p })
    else e
