-- ===== src/Mechanism/Zap.antt =====
-- src/plain_server.cpp: the request to the ZAP handler and its reply; src/session_base.cpp: the pipe to it.
-- The pipe is what is written to the handler and what has come from it.
use zeromq.Prelude.{
  ℕ, zero, suc, Bool, true, false, not, Option, none, some, List, [], ◌∷◌, ◌++◌, length, get_or,
  ◌==◌, if◌then◌else◌, equals,
}
use zeromq.Msg
use zeromq.Msg.{Msg}
use zeromq.Mechanism.{
  Mechanism, Settings, Rc, ok, eproto, eacces, eagain, set_user_id, parse_metadata,
}

-- `connected` is what `zap_connect` finds: a handler that is bound.
pub record Zap : Type 0 where
  pub connected : Bool
  pub requests : List Msg
  pub replies : List Msg

-- `write_zap_msg`, on the pipe that `zap_connect` has made
abbrev pub write_zap_msg : Msg → Zap → Zap
write_zap_msg m z = record z { requests = z.requests ++ m ∷ [] }

abbrev frame : Bool → List ℕ → Msg
frame more bytes = record Msg.empty { more = more; body = bytes }

abbrev version : List ℕ
version = 49 ∷ 46 ∷ 48 ∷ []

abbrev request_id : List ℕ
request_id = 49 ∷ []

-- "PLAIN"
abbrev mechanism_name : List ℕ
mechanism_name = 80 ∷ 76 ∷ 65 ∷ 73 ∷ 78 ∷ []

unfoldable pub send_zap_request : List ℕ → Settings → List ℕ → List ℕ → Zap → Zap
send_zap_request peer_address o username password z =
    let z1 = write_zap_msg (frame true []) z in
    let z2 = write_zap_msg (frame true version) z1 in
    let z3 = write_zap_msg (frame true request_id) z2 in
    let z4 = write_zap_msg (frame true o.zap_domain) z3 in
    let z5 = write_zap_msg (frame true peer_address) z4 in
    let z6 = write_zap_msg (frame true o.identity) z5 in
    let z7 = write_zap_msg (frame true mechanism_name) z6 in
    let z8 = write_zap_msg (frame true username) z7 in write_zap_msg (frame false password) z8

-- The loop that reads `n` frames of the reply, of which all but the last have `more`.
unfoldable pub read_frames : ℕ → List Msg → Rc × List Msg × List Msg
read_frames zero replies = (ok, [], replies)
read_frames (suc n) [] = (eagain, [], [])
read_frames (suc n) (m ∷ replies) =
    let (rc, frames, rest) = read_frames n replies in
    let wrong = if n == 0 then m.more else not m.more in
    if wrong then (eproto, [], replies) else (rc, m ∷ frames, rest)

abbrev body_of : List Msg → ℕ → List ℕ
body_of frames i = (get_or frames i Msg.empty).body

-- The checks of a complete reply, in their order; the status code is saved before the metadata are read.
unfoldable pub process_reply : List Msg → Mechanism → Rc × Option (List ℕ) × Mechanism
process_reply frames m =
    let m' = set_user_id (body_of frames 5) m in
    let (rc, m'') = parse_metadata true (body_of frames 6) m' in
    if not (length (body_of frames 0) == 0)
    then (eproto, none, m)
    else if not (equals (body_of frames 1) version)
    then (eproto, none, m)
    else if not (equals (body_of frames 2) request_id)
    then (eproto, none, m)
    else if not (length (body_of frames 3) == 3)
    then (eacces, none, m)
    else (rc, some (body_of frames 3), m'')

-- `none` leaves the status code as it is.
unfoldable pub receive_and_process_zap_reply :
    Zap → Mechanism → Rc × Option (List ℕ) × Mechanism × Zap
unfolding read_frames process_reply
receive_and_process_zap_reply z m =
    let (rc, frames, rest) = read_frames 7 z.replies in
    let z' : Zap = record z { replies = rest } in
    let (rc', code, m') = process_reply frames m in
    elim rc [ ok ↦ (rc', code, m', z') | e ↦ (e, none, m, z') ]
