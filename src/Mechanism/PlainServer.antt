-- ===== src/Mechanism/PlainServer.antt =====
-- src/plain_server.cpp: the server of the PLAIN mechanism. A command is the list of its bytes. `none` is a
-- failed assertion.
use zeromq.Prelude.{
  ℕ, Bool, true, false, not, Option, none, some, List, [], ◌∷◌, ◌++◌, length, take, drop, ltb, ◌==◌,
  if◌then◌else◌, require, equals, starts_with, ◌>>=◌,
}
use zeromq.Mechanism
use zeromq.Mechanism.{Mechanism, Settings, Rc, ok, eproto, eacces, eagain, efsm, parse_metadata}
use zeromq.Mechanism.Zap.{Zap, send_zap_request, receive_and_process_zap_reply}
use zeromq.Mechanism.PlainClient.{hello, welcome, initiate, ready_name, error_name, own_properties}

pub data State : Type 0 where
  waiting_for_hello sending_welcome waiting_for_initiate sending_ready waiting_for_zap_reply
        sending_error error_command_sent ready :
      State

pub record PlainServer : Type 0 where
  pub mechanism : Mechanism
  pub zap : Zap
  pub peer_address : List ℕ
  pub status_code : List ℕ
  pub state : State

abbrev pub new : Settings → List ℕ → Zap → PlainServer
new o peer_address z = record {
  mechanism = Mechanism.new o;
  zap = z;
  peer_address = peer_address;
  status_code = [];
  state = waiting_for_hello;
}

unfoldable pub produce_error : PlainServer → Option (List ℕ)
produce_error s =
    require (length s.status_code == 3)
      (some (error_name ++ (length s.status_code ∷ s.status_code)))

abbrev pub produce_ready : Settings → List ℕ
produce_ready o = ready_name ++ own_properties o

-- `errno` or 0, the command, and the server after it.
unfoldable pub next_handshake_command : PlainServer → Option (Rc × List ℕ × PlainServer)
unfolding produce_error
next_handshake_command s = elim s.state [
  | sending_welcome ↦ some (ok, welcome, record s { state = waiting_for_initiate })
  | sending_ready ↦ some (ok, produce_ready s.mechanism.options, record s { state = ready })
  | sending_error ↦ elim (produce_error s) [
    | none ↦ none
    | some command ↦ some (ok, command, record s { state = error_command_sent })
  ]
  | _ ↦ some (eagain, [], s)
]

-- The state after a reply of the ZAP handler.
abbrev pub after_status : PlainServer → PlainServer
after_status s = record s {
  state = if equals s.status_code (50 ∷ 48 ∷ 48 ∷ []) then sending_welcome else sending_error;
}

-- The server with what `receive_and_process_zap_reply` has changed.
abbrev pub received : PlainServer → Rc × Option (List ℕ) × Mechanism × Zap → Rc × PlainServer
received s (rc, code, m, z) = (
  rc,
  record s {
    mechanism = m;
    zap = z;
    status_code = elim code [ none ↦ s.status_code | some x ↦ x ];
  },
)

abbrev pub receive : PlainServer → Rc × PlainServer
receive s = received s (receive_and_process_zap_reply s.zap s.mechanism)

unfoldable pub zap_msg_available : PlainServer → Rc × PlainServer
zap_msg_available s =
    let (rc, s') = receive s in
    elim s.state [
      | waiting_for_zap_reply ↦ elim rc [ ok ↦ (ok, after_status s') | e ↦ (e, s') ]
      | _ ↦ (efsm, s)
    ]

-- A string behind its length, and what follows it; `none` where bytes are missing.
abbrev pub short_string : List ℕ → Option (List ℕ × List ℕ)
short_string [] = none
short_string (n ∷ bytes) = if ltb (length bytes) n then none else some (take n bytes, drop n bytes)

abbrev pub nothing_left : List ℕ → Bool
nothing_left [] = true
nothing_left (b ∷ bytes) = false

-- The username and the password in a HELLO command; `none` where `process_hello` returns EPROTO.
unfoldable pub credentials : List ℕ → Option (List ℕ × List ℕ)
credentials bytes = require (starts_with hello bytes) (
    short_string (drop 6 bytes) >>= λ u.
    (short_string u.1 >>= λ p. require (nothing_left p.1) (some (u.0, p.0))))

-- The state after the first look for a reply.
abbrev pub after_request : Rc × PlainServer → Rc × PlainServer
after_request (rc, s) = elim rc [
  | ok ↦ (ok, after_status s)
  | eagain ↦ (ok, record s { state = waiting_for_zap_reply })
  | e ↦ (e, s)
]

-- The end of `process_hello`: what the ZAP handler says, if there is one.
unfoldable pub authenticate : List ℕ → List ℕ → PlainServer → Rc × PlainServer
authenticate username password s =
    let z = send_zap_request s.peer_address s.mechanism.options username password s.zap in
    if not s.zap.connected
    then (ok, record s { state = sending_welcome })
    else after_request (receive (record s { zap = z }))

unfoldable pub process_hello : List ℕ → PlainServer → Rc × PlainServer
unfolding credentials authenticate
process_hello bytes s = elim (credentials bytes) [
  | none ↦ (eproto, s)
  | some (username, password) ↦ authenticate username password s
]

unfoldable pub process_initiate : List ℕ → PlainServer → Rc × PlainServer
process_initiate bytes s =
    let (rc, m) = parse_metadata false (drop 9 bytes) s.mechanism in
    let parsed : PlainServer = record s { mechanism = m } in
    if not (starts_with initiate bytes)
    then (eproto, s)
    else elim rc [ ok ↦ (ok, record parsed { state = sending_ready }) | e ↦ (e, parsed) ]

unfoldable pub process_handshake_command : List ℕ → PlainServer → Rc × PlainServer
unfolding process_hello process_initiate
process_handshake_command bytes s = elim s.state [
  | waiting_for_hello ↦ process_hello bytes s
  | waiting_for_initiate ↦ process_initiate bytes s
  | _ ↦ (eproto, s)
]

abbrev pub status : PlainServer → Mechanism.Status
status p = elim p.state [
  | ready ↦ Mechanism.ready
  | error_command_sent ↦ Mechanism.error
  | _ ↦ Mechanism.handshaking
]
