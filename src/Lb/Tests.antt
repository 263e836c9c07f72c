-- ===== src/Lb/Tests.antt =====
-- The theorems on src/lb.cpp at concrete pipes.
use zeromq.Prelude.{ℕ, ◌≡◌, ◌≢◌, refl, true, false, some, [], ◌∷◌, arith, pos}
use Prim.{tt}
use zeromq.Msg.{Msg, empty}
use zeromq.Pipe
use zeromq.Pipe.{Pipe, Ends, new_queue}
use zeromq.Pipe.Write.{write, check_write}
use zeromq.Array
use zeromq.Array.{Array, Holds, IsIndexed, push_back, swap}
use zeromq.Ring.{remove}
use zeromq.Ring.Tests.{three, three-IsValid}
use zeromq.Ring.Current.{current_pipe}
use zeromq.Ring.Visit.{Store}
use zeromq.Lb.{Lb, dropped, pipe_terminated, attempt, sendpipe}
use zeromq.Lb.Send.{Balanced, sendpipe-Balanced}
use zeromq.Lb.Parts.{Continued, sendpipe-Continued, sendpipe_strays, send_all, send_all_drops_rest}

abbrev store : Store
store p = record {
  pipe = Pipe.new (pos 5) (pos 5);
  inpipe = new_queue;
  outpipe = new_queue;
  sent = [];
  events = [];
}

abbrev part : Msg
part = record empty { more = true }

abbrev idle : Lb
idle = record { ring = three 1; more = false; dropping = false }

-- The first parts of a message are with pipe 9.
abbrev busy : Lb
busy = record { ring = three 2; more = true; dropping = false }

sendpipe-Balanced_example : Balanced empty idle store (sendpipe empty idle store)
sendpipe-Balanced_example =
    sendpipe-Balanced empty idle store (three-IsValid 1 (omega arith)) refl refl

sendpipe-Continued_example : Continued empty busy store (sendpipe empty busy store)
unfolding Pipe.new
sendpipe-Continued_example = sendpipe-Continued empty busy store refl refl (omega arith) refl refl

abbrev front_pipe : ℕ
front_pipe = 7

sendpipe_strays_example : front_pipe ≢ current_pipe busy.ring
unfolding sendpipe attempt pipe_terminated remove Pipe.new swap Array.erase write check_write
    Pipe.check_hwm
sendpipe_strays_example =
    sendpipe_strays 8 busy (omega arith, refl) (three-IsValid 2 (omega arith)) (omega arith)
      (λ e. absurd (omega (arith, e))) (omega arith) (omega arith) refl refl refl part store _
      front_pipe refl refl

send_all_drops_rest_example :
    send_all (part ∷ empty ∷ []) (pipe_terminated 9 busy) store
    ≡ some (
      dropped ∷ dropped ∷ [],
      record { ring = remove 9 (three 2); more = false; dropping = false },
      store,
    )
send_all_drops_rest_example =
    send_all_drops_rest 9 busy (part ∷ []) empty store refl refl (refl, tt) refl
