-- ===== src/ReqSession/Retry.antt =====
-- A message that the pipe has no room for is pushed again when there is room.
use zeromq.Prelude.{both_true, ◌≡◌, refl, ap, ◌∙◌, none, some, Bool, true, false, not, ◌&&◌, length}
use zeromq.Msg.{Msg}
use zeromq.Pipe.{Ends}
use zeromq.Pipe.Write.{write}
use zeromq.ReqSession.{
  bottom, request_id, only_more, no_other_flag, follow, again, fault, push_msg, push_to_pipe,
}

not_command : (c r i : Bool) → not c && not r && not i ≡ true → c ≡ false
not_command true r i h = absurd cc
not_command false r i h = refl

number_moves :
    (m : Msg) → only_more m ≡ true → length m.body ≡ 4 → follow bottom m ≡ some request_id
unfolding follow
number_moves m more four = rw (more, four) refl

number_ends : (m : Msg) → only_more m ≡ true → length m.body ≡ 4 → follow request_id m ≡ none
unfolding follow
number_ends m more four = rw (more, four) refl

push_refused :
    (m : Msg) (e : Ends)
    → m.command ≡ false
    → (write m e).0 ≡ false
    → push_to_pipe m e ≡ (again, (write m e).1)
push_refused m e plain full = simp (plain, full) refl

-- The number of a request comes first, and the pipe refuses it: `push_msg` returns EAGAIN, and when the same
-- message is pushed again, it returns EFAULT, whatever room the pipe then has.
pub push_msg_again :
    (m : Msg) (e later : Ends)
    → only_more m ≡ true
    → length m.body ≡ 4
    → (write m e).0 ≡ false
    → (push_msg m bottom e ≡ (again, request_id, (write m e).1))
      × (push_msg m (push_msg m bottom e).1 later ≡ (fault, request_id, later))
unfolding push_msg
push_msg_again m e later more four full =
    let (_, others) = both_true m.more (no_other_flag m) more in
    let plain = not_command m.command m.credential m.identity others in
    let first : push_msg m bottom e ≡ (again, request_id, (write m e).1) =
      rw (push_msg, number_moves m more four, push_refused m e plain full) refl in
    (first, ap (λ x. push_msg m x.1 later) first ∙ rw (push_msg, number_ends m more four) refl)
