-- ===== src/Pipe/Terminate.antt =====
-- The termination of `pipe_t`.
use zeromq.Prelude.{Bool, true, false, Option, none, some, if◌then◌else◌, ◌>>=◌}
use zeromq.Msg
use zeromq.Msg.{Msg}
use zeromq.Pipe.{
  Pipe, Ends, active, delimiter_received, waiting_for_delimiter, term_ack_sent, term_req_sent1,
  term_req_sent2, pipe_term, pipe_terminated, send, notify, set_state, new_queue,
}
use zeromq.Pipe.Read.{acknowledge}
use zeromq.Pipe.Write.{put, set_out_active, rollback, flush}

unfoldable pub process_pipe_term : Ends → Option Ends
process_pipe_term e = elim e.pipe.state [
  | active ↦
      if e.pipe.delay
      then some (set_state waiting_for_delimiter e)
      else some (acknowledge term_ack_sent e)
  | delimiter_received ↦ some (acknowledge term_ack_sent e)
  | term_req_sent1 ↦ some (acknowledge term_req_sent2 e)
  | _ ↦ none
]

-- `delete this` and the inbound queue: the object is gone after it.
abbrev pub release : Ends → Ends
release e = record e { inpipe = new_queue }

-- The state is not changed by the acknowledgement here.
unfoldable pub process_pipe_term_ack : Ends → Option Ends
process_pipe_term_ack e =
    let e' = notify pipe_terminated e in
    elim e.pipe.state [
      | term_req_sent1 ↦ some (release (acknowledge term_req_sent1 e'))
      | term_ack_sent ↦ some (release e')
      | term_req_sent2 ↦ some (release e')
      | _ ↦ none
    ]

abbrev pub set_delay : Bool → Ends → Ends
set_delay d e = let p : Pipe = record e.pipe { delay = d } in record e { pipe = p }

abbrev pub set_nodelay : Ends → Ends
set_nodelay e = set_delay false e

-- The delimiter, which passes whatever the watermarks say.
abbrev pub delimiter : Msg
delimiter = record Msg.empty { delimiter = true }

-- The end of `terminate`, after the state has changed.
unfoldable pub close_out : Ends → Option Ends
unfolding flush rollback
close_out e =
    let e' = set_out_active false e in
    if e.pipe.has_out
    then (rollback e' >>= λ e''. some (flush (put delimiter false e'')))
    else some e'

unfoldable pub terminate : Bool → Ends → Option Ends
unfolding close_out
terminate delay e =
    let e' = set_delay delay e in
    elim e.pipe.state [
      | term_req_sent1 ↦ some e'
      | term_req_sent2 ↦ some e'
      | term_ack_sent ↦ some e'
      | active ↦ close_out (set_state term_req_sent1 (send pipe_term e'))
      | delimiter_received ↦ close_out (set_state term_req_sent1 (send pipe_term e'))
      | waiting_for_delimiter ↦
          if delay then close_out e' else close_out (acknowledge term_ack_sent e')
    ]
