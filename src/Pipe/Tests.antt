-- ===== src/Pipe/Tests.antt =====
-- The theorems on src/pipe.cpp at concrete pipes.
use zeromq.Prelude.{◌<◌, ◌≤◌, ◌≡◌, refl, true, Option, none, some, [], ◌∷◌, ◌++◌, arith, pos}
use zeromq.Msg.{empty}
use zeromq.Pipe.{Pipe, Ends, new, new_queue, check_hwm, in_flight, pipe_term, activate_write}
use zeromq.Pipe.Read.{read}
use zeromq.Pipe.Write.{check_write, process_activate_write, write, rollback, flush, flush_queue}
use zeromq.Pipe.Terminate.{terminate, close_out, process_pipe_term}
use zeromq.Pipe.Pair.{
  Pair, new_pair, flip, ends, to_terminate, run, process, update, Reach, here, next, call_step,
  command_step, turn,
}
use zeromq.Pipe.Pair.Safety.{IsSafe, Reach-new_pair-IsSafe}
use zeromq.Pipe.Watermarks.{in_flight-write}
use zeromq.Pipe.Recovery.{check_write_recovers}

abbrev result : Ends → Option Ends → Ends
result e none = e
result e (some e') = e'

abbrev fresh : Pair
fresh = new_pair (pos 10) (pos 10)

-- One end terminates, and the other end gets the request.
abbrev at_me : Ends
at_me = ends fresh.me fresh.inpipe fresh.outpipe

abbrev asked : Ends
asked = result at_me (run (to_terminate true) at_me)

abbrev other : Pair
other = flip (update fresh asked)

abbrev at_peer : Ends
at_peer = ends other.me other.inpipe other.outpipe

abbrev answered : Ends
answered = result at_peer (process pipe_term at_peer)

abbrev later : Pair
later = record (update other answered) { inbox = []; alive = true }

terminates : Reach fresh later
unfolding new_pair new run terminate close_out rollback flush flush_queue process process_pipe_term
terminates =
    next (next (next here (call_step (to_terminate true) asked refl refl)) turn)
      (command_step pipe_term [] answered refl refl refl)

Reach-new_pair-IsSafe_example : IsSafe later
Reach-new_pair-IsSafe_example = Reach-new_pair-IsSafe (pos 10) (pos 10) terminates

-- Two messages are on their way, and the limit is two.
abbrev full_pipe : Pipe
full_pipe = record (new (pos 2) (pos 2)) { msgs_written = 7; peers_msgs_read = 5 }

abbrev at_limit : Ends
at_limit = ends full_pipe new_queue new_queue

in_flight-write_example : in_flight (write empty at_limit).1.pipe ≤ 2
unfolding new
in_flight-write_example =
    in_flight-write empty at_limit 2 (record { written = omega arith; read = omega arith }) refl
      (omega arith) (omega arith) (omega arith)

-- The other end has read six messages, and two are there.
abbrev reader : Ends
reader = record (ends (record (new (pos 2) (pos 2)) { msgs_read = 6 }) new_queue new_queue) {
  inpipe = record new_queue { content = record new_queue.content { unread = empty ∷ [] } };
}

abbrev writer : Ends
writer = at_limit

check_write_recovers_example :
    (5 < 7)
    × (7 ≤ 7)
    × ((r' : Ends) × (read reader ≡ some (some empty, r'))
        × (r'.sent ≡ [] ++ activate_write 7 ∷ []))
    × ((check_write (process_activate_write 7 writer)).0 ≡ true)
unfolding new check_hwm
check_write_recovers_example =
    check_write_recovers writer reader 2 empty
      (record {
        state = refl;
        limit = refl;
        order = omega arith;
        counted = omega arith;
        within = omega arith;
        full = refl;
      })
      refl (omega arith)
      (record {
        active = refl;
        readable = refl;
        rest = [];
        next = refl;
        whole = refl;
        no_identity = refl;
        no_credential = refl;
        no_delimiter = refl;
      })
      refl
