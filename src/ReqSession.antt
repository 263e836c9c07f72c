-- ===== src/ReqSession.antt =====
-- src/req.cpp: `req_session_t`, which lets only well-formed replies through to a REQ socket.
-- `flags ()` is compared as a whole: of its bits `shared` is never set in a message from the decoder, and is
-- left out. `push_msg` of src/session_base.cpp writes to the pipe of the session, which is there.
pub mod Grammar
pub mod Retry
mod Tests
use zeromq.Prelude.{
  ℕ, Bool, true, false, not, ◌&&◌, Option, none, some, List, [], ◌∷◌, length, ◌==◌, if◌then◌else◌,
  ◌>>=◌,
}
use zeromq.Msg.{Msg}
use zeromq.Pipe.{Ends}
use zeromq.Pipe.Write.{write}

pub data State : Type 0 where
  bottom request_id body : State

-- `flags () == msg_t::more` and `flags () == 0`
abbrev pub no_other_flag : Msg → Bool
no_other_flag m = not m.command && not m.credential && not m.identity

abbrev pub only_more : Msg → Bool
only_more m = m.more && no_other_flag m

abbrev pub no_flag : Msg → Bool
no_flag m = not m.more && no_other_flag m

-- The state that `push_msg` goes to, or `none` where it breaks out of the switch.
unfoldable pub follow : State → Msg → Option State
follow bottom m =
    if not (only_more m)
    then none
    else if length m.body == 4
    then some request_id
    else if length m.body == 0
    then some body
    else none
follow request_id m = if only_more m && length m.body == 0 then some body else none
follow body m = if only_more m then some body else if no_flag m then some bottom else none

pub data Result : Type 0 where
  pushed again fault : Result

-- `session_base_t::push_msg`
abbrev pub push_to_pipe : Msg → Ends → Result × Ends
push_to_pipe m e =
    let (ok, e') = write m e in
    if m.command then (pushed, e) else (if ok then pushed else again, e')

unfoldable pub push_msg : Msg → State → Ends → Result × State × Ends
push_msg m st e = elim (follow st m) [
  | none ↦ (fault, st, e)
  | some st' ↦ let (r, e') = push_to_pipe m e in (r, st', e')
]

-- The frames that come one after the other.
unfoldable pub follow_all : State → List Msg → Option State
follow_all st [] = some st
follow_all st (m ∷ ms) = follow st m >>= λ st'. follow_all st' ms
