-- ===== src/ReqSession/Tests.antt =====
-- The theorems on `req_session_t` at concrete messages.
use zeromq.Prelude.{◌≡◌, ◌↔◌, refl, true, some, List, [], ◌∷◌, pos}
use zeromq.Msg.{Msg, empty}
use zeromq.Pipe
use zeromq.Pipe.{Pipe, Ends, new_queue}
use zeromq.Pipe.Write.{write, check_write}
use zeromq.ReqSession.{bottom, request_id, again, fault, follow_all, push_msg}
use zeromq.ReqSession.Grammar.{Replies, follow_all_iff_Replies}
use zeromq.ReqSession.Retry.{push_msg_again}

abbrev number : Msg
number = record empty { more = true; body = 1 ∷ 2 ∷ 3 ∷ 4 ∷ [] }

abbrev frames : List Msg
frames = number ∷ record empty { more = true } ∷ record empty { body = 7 ∷ [] } ∷ []

follow_all_iff_Replies_example : (follow_all bottom frames ≡ some bottom) ↔ Replies frames
follow_all_iff_Replies_example = follow_all_iff_Replies frames

-- One message is on its way, and the limit is one.
abbrev full : Ends
full = record {
  pipe = record (Pipe.new (pos 1) (pos 1)) { msgs_written = 1 };
  inpipe = new_queue;
  outpipe = new_queue;
  sent = [];
  events = [];
}

push_msg_again_example :
    (push_msg number bottom full ≡ (again, request_id, (write number full).1))
    × (push_msg number (push_msg number bottom full).1 full ≡ (fault, request_id, full))
unfolding Pipe.new write check_write Pipe.check_hwm
push_msg_again_example = push_msg_again number full full refl refl refl
