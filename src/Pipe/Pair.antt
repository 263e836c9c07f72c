-- ===== src/Pipe/Pair.antt =====
-- Two ends of a pair of pipes, with the commands that are on their way to each: what `pipepair` makes,
-- and the steps of the two threads. `me` is the end that takes the next step; `turn` exchanges the two.
-- The sink calls any method of the object until `pipe_terminated`. Hiccups are left out.
pub mod Moves
pub mod Reading
pub mod Writing
pub mod Runs
pub mod Commands
pub mod Legal
pub mod Answers
pub mod Steps
pub mod Safety
use zeromq.Prelude.{Bool, true, false, ◌≡◌, Option, none, some, List, [], ◌∷◌, ◌++◌, ◌>>=◌, ℤ}
use zeromq.Msg.{Msg}
use zeromq.Pipe
use zeromq.Pipe.{
  Pipe, Queue, Ends, Command, activate_read, activate_write, pipe_term, pipe_term_ack, new_queue,
}
use zeromq.Pipe.Read.{check_read, read, process_activate_read}
use zeromq.Pipe.Write.{write, rollback, flush, process_activate_write}
use zeromq.Pipe.Terminate.{process_pipe_term, process_pipe_term_ack, set_nodelay, terminate}

pub record Pair : Type 0 where
  pub me : Pipe
  pub peer : Pipe
  pub alive : Bool
  pub peer_alive : Bool
  pub inpipe : Queue
  pub outpipe : Queue
  pub inbox : List Command
  pub outbox : List Command

abbrev pub flip : Pair → Pair
flip s = record {
  me = s.peer;
  peer = s.me;
  alive = s.peer_alive;
  peer_alive = s.alive;
  inpipe = s.outpipe;
  outpipe = s.inpipe;
  inbox = s.outbox;
  outbox = s.inbox;
}

-- `pipepair`, for the water marks `hwms [0]` and `hwms [1]`
unfoldable pub new_pair : ℤ → ℤ → Pair
new_pair hwm0 hwm1 = record {
  me = Pipe.new hwm1 hwm0;
  peer = Pipe.new hwm0 hwm1;
  alive = true;
  peer_alive = true;
  inpipe = new_queue;
  outpipe = new_queue;
  inbox = [];
  outbox = [];
}

abbrev pub ends : Pipe → Queue → Queue → Ends
ends p inpipe outpipe = record {
  pipe = p;
  inpipe = inpipe;
  outpipe = outpipe;
  sent = [];
  events = [];
}

-- The calls that the owner of an end makes.
pub data Call : Type 0 where
  to_check_read to_read to_rollback to_flush to_set_nodelay : Call
  to_write : Msg → Call
  to_terminate : Bool → Call

unfoldable pub run : Call → Ends → Option Ends
run to_check_read e = check_read e >>= λ r. some r.1
run to_read e = read e >>= λ r. some r.1
run to_rollback e = rollback e
run to_flush e = some (flush e)
run to_set_nodelay e = some (set_nodelay e)
run (to_write m) e = some (write m e).1
run (to_terminate delay) e = terminate delay e

-- `process_command`, as far as it goes to a pipe
unfoldable pub process : Command → Ends → Option Ends
process activate_read e = some (process_activate_read e)
process (activate_write n) e = some (process_activate_write n e)
process pipe_term e = process_pipe_term e
process pipe_term_ack e = process_pipe_term_ack e

-- Whether the object is still there after the command.
abbrev pub survives : Command → Bool
survives c = elim c [ pipe_term_ack ↦ false | _ ↦ true ]

abbrev pub update : Pair → Ends → Pair
update s e = record s {
  me = e.pipe;
  inpipe = e.inpipe;
  outpipe = e.outpipe;
  outbox = s.outbox ++ e.sent;
}

pub data Step (s : Pair) : Pair → Type 0 where
  call_step :
      (c : Call) (e : Ends)
      → s.alive ≡ true
      → run c (ends s.me s.inpipe s.outpipe) ≡ some e
      → Step s (update s e)
  command_step :
      (c : Command) (rest : List Command) (e : Ends)
      → s.alive ≡ true
      → s.inbox ≡ c ∷ rest
      → process c (ends s.me s.inpipe s.outpipe) ≡ some e
      → Step s (record (update s e) { inbox = rest; alive = survives c })
  turn : Step s (flip s)

pub data Reach (s : Pair) : Pair → Type 0 where
  here : Reach s s
  next : {t u : Pair} → Reach s t → Step t u → Reach s u
