-- ===== src/Fq/Tests.antt =====
-- The theorems on src/fq.cpp at concrete pipes.
use zeromq.Prelude.{refl, true, false, none, [], ◌∷◌, arith, pos}
use zeromq.Msg.{empty}
use zeromq.Pipe
use zeromq.Pipe.{Pipe, Ends, Queue, new_queue}
use zeromq.Ring.Tests.{three, three-IsValid}
use zeromq.Ring.Current.{current_pipe}
use zeromq.Ring.Visit.{Store}
use zeromq.Fq.{Fq, recvpipe, pipe_terminated}
use zeromq.Fq.Receive.{Received, recvpipe-Received, got}
use zeromq.Fq.Parts.{GoesOn, recvpipe-GoesOn}

-- Each pipe has one message.
abbrev one_message : Queue
one_message = record {
  content = record { unread = empty ∷ []; complete = []; partial = [] };
  asleep = false;
}

abbrev store : Store
store p = record {
  pipe = Pipe.new (pos 5) (pos 5);
  inpipe = one_message;
  outpipe = new_queue;
  sent = [];
  events = [];
}

abbrev idle : Fq
idle = record { ring = three 1; last_in = none; more = false; saved_credential = [] }

-- The first parts of a message came from pipe 9.
abbrev busy : Fq
busy = record { ring = three 2; last_in = none; more = true; saved_credential = [] }

recvpipe-Received_example : Received idle store (recvpipe idle store)
recvpipe-Received_example = recvpipe-Received idle store (three-IsValid 1 (omega arith)) refl

recvpipe-GoesOn_example :
    GoesOn busy store (got (store (current_pipe busy.ring))) (recvpipe busy store)
recvpipe-GoesOn_example = recvpipe-GoesOn busy store refl (omega arith)

abbrev after : Fq
after = pipe_terminated 8 store busy
