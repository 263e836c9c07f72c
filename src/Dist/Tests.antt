-- ===== src/Dist/Tests.antt =====
-- The theorems on src/dist.cpp at concrete pipes.
use zeromq.Prelude.{false, [], arith, pos}
use zeromq.Msg.{empty}
use zeromq.Pipe
use zeromq.Pipe.{Pipe, Ends, new_queue}
use zeromq.Array.{swap, push_back}
use zeromq.Ring.Visit.{Store}
use zeromq.Ring.Tests.{three, three-IsValid}
use zeromq.Dist
use zeromq.Dist.{Dist, attach, send_to_all, send_to_matching}
use zeromq.Dist.Spread.{Distributed, send_to_matching-Distributed}
use zeromq.Dist.Leave.{IsSound}
use zeromq.Dist.Reachable.{Reach, here, next, attach_step, all_step, Reach-IsSound}

abbrev store : Store
store p = record {
  pipe = Pipe.new (pos 5) (pos 5);
  inpipe = new_queue;
  outpipe = new_queue;
  sent = [];
  events = [];
}

-- Two of three pipes match.
abbrev two_match : Dist
two_match = record { pipes = (three 0).pipes; matching = 2; active = 3; eligible = 3; more = false }

send_to_matching-Distributed_example :
    Distributed empty two_match store
      (send_to_matching empty two_match store).0
      (send_to_matching empty two_match store).1
send_to_matching-Distributed_example = send_to_matching-Distributed empty two_match store (record {
  indexed = (three-IsValid 0 (omega arith)).indexed;
  matching_fits = omega arith;
  active_fits = omega arith;
  eligible_fits = omega arith;
})

-- Two pipes are attached, and a message is sent to both.
two_sent : Reach (send_to_all empty (attach 8 (attach 7 Dist.new)) store).0
unfolding attach swap push_back
two_sent =
    next
      (next (next here (attach_step 7 (λ i h. absurd (omega arith))))
        (attach_step 8 (λ i h. grind arith)))
      (all_step empty store)

Reach-IsSound_example : IsSound (send_to_all empty (attach 8 (attach 7 Dist.new)) store).0
Reach-IsSound_example = Reach-IsSound two_sent
