-- ===== src/Pipe.antt =====
-- src/pipe.cpp: `pipe_t`, one end of a pair of message pipes.
-- An `upipe_t` is the queue of lists that Ypipe's methods implement, and whether its reader sleeps. A
-- method gets the fields of its object and the two queues, and adds to `sent` what it sends to the peer,
-- and to `events` its calls of the sink, oldest first; `none` is a failed assertion. `outpipe = NULL` is
-- `has_out`. Pipes with `conflate` are not modelled.
pub mod Read
pub mod Write
pub mod Terminate
pub mod Pair
pub mod Hiccup
pub mod Watermarks
pub mod Recovery
mod Tests
use zeromq.Prelude.{
  ℕ, ◌+◌, ◌-◌, ◌%◌, ◌^◌, Bool, true, false, not, ◌&&◌, ◌||◌, Option, none, some, List, [], ◌∷◌,
  ◌++◌, ltb, leb, ◌==◌, if◌then◌else◌, require, ℤ, pos, negsuc, geq, ◌=ℤ◌, ◌+ℤ◌, quotient,
}
use zeromq.Msg.{Msg}
use zeromq.Ypipe.Content.{Content, enqueue, hand_over}

pub data State : Type 0 where
  active delimiter_received waiting_for_delimiter term_ack_sent term_req_sent1 term_req_sent2 :
      State

pub data Command : Type 0 where
  activate_read pipe_term pipe_term_ack : Command
  activate_write : ℕ → Command

pub data Event : Type 0 where
  read_activated write_activated hiccuped pipe_terminated : Event

pub record Queue : Type 0 where
  pub content : Content Msg
  pub asleep : Bool

abbrev pub new_queue : Queue
new_queue = record { content = record { unread = []; complete = []; partial = [] }; asleep = false }

pub record Pipe : Type 0 where
  pub in_active : Bool
  pub out_active : Bool
  pub hwm : ℤ
  pub lwm : ℤ
  pub inhwmboost : ℤ
  pub outhwmboost : ℤ
  pub msgs_read : ℕ
  pub msgs_written : ℕ
  pub peers_msgs_read : ℕ
  pub state : State
  pub delay : Bool
  pub has_out : Bool
  pub credential : List ℕ

-- The object and what it works on.
pub record Ends : Type 0 where
  pub pipe : Pipe
  pub inpipe : Queue
  pub outpipe : Queue
  pub sent : List Command
  pub events : List Event

abbrev pub send : Command → Ends → Ends
send c e = record e { sent = e.sent ++ c ∷ [] }

abbrev pub notify : Event → Ends → Ends
notify v e = record e { events = e.events ++ v ∷ [] }

abbrev pub set_state : State → Ends → Ends
set_state s e = let p : Pipe = record e.pipe { state = s } in record e { pipe = p }

abbrev pub is_active : State → Bool
is_active s = elim s [ active ↦ true | _ ↦ false ]

abbrev pub is_waiting : State → Bool
is_waiting s = elim s [ waiting_for_delimiter ↦ true | _ ↦ false ]

-- A sum that is above the range of `int`, which has 32 bits, in two's complement.
unfoldable pub to_int : ℤ → ℤ
to_int (pos n) = if ltb n (2 ^ 31) then pos n else negsuc (2 ^ 32 - 1 - n)
to_int (negsuc n) = negsuc n

unfoldable pub compute_lwm : ℤ → ℤ
unfolding to_int
compute_lwm hwm = quotient (to_int (hwm +ℤ pos 1)) 2

-- `z <= 0`
abbrev pub is_unlimited : ℤ → Bool
is_unlimited z = geq (pos 0) z

-- `pipe_t::pipe_t (..., inhwm, outhwm, false)`
unfoldable pub new : ℤ → ℤ → Pipe
unfolding compute_lwm
new inhwm outhwm = record {
  in_active = true;
  out_active = true;
  hwm = outhwm;
  lwm = compute_lwm inhwm;
  inhwmboost = pos 0;
  outhwmboost = pos 0;
  msgs_read = 0;
  msgs_written = 0;
  peers_msgs_read = 0;
  state = active;
  delay = true;
  has_out = true;
  credential = [];
}

unfoldable pub set_hwms : ℤ → ℤ → Pipe → Pipe
unfolding to_int
set_hwms inhwm outhwm p =
    let inlimit =
      if is_unlimited inhwm || is_unlimited p.inhwmboost
      then pos 0
      else to_int (inhwm +ℤ p.inhwmboost) in
    let outlimit =
      if is_unlimited outhwm || is_unlimited p.outhwmboost
      then pos 0
      else to_int (outhwm +ℤ p.outhwmboost) in
    record p { lwm = compute_lwm inlimit; hwm = outlimit }

abbrev pub set_hwms_boost : ℤ → ℤ → Pipe → Pipe
set_hwms_boost inhwmboost outhwmboost p = record p {
  inhwmboost = inhwmboost;
  outhwmboost = outhwmboost;
}

-- `msgs_written - peers_msgs_read`, in 64 bits.
abbrev pub in_flight : Pipe → ℕ
in_flight p = (p.msgs_written + 2 ^ 64 - p.peers_msgs_read) % 2 ^ 64

-- `hwm > 0 && in_flight >= hwm`, negated.
abbrev pub has_room : ℤ → ℕ → Bool
has_room (pos n) flying = n == 0 || ltb flying n
has_room (negsuc n) flying = true

unfoldable pub check_hwm : Pipe → Bool
check_hwm p = has_room p.hwm (in_flight p)
