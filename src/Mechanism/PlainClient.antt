-- ===== src/Mechanism/PlainClient.antt =====
-- src/plain_client.cpp: the client of the PLAIN mechanism. A command is the list of its bytes. `none` is a
-- failed assertion.
use zeromq.Prelude.{
  ℕ, ◌-◌, Bool, true, false, not, ◌&&◌, Option, none, some, List, [], ◌∷◌, ◌++◌, length, drop,
  get_or, ltb, ◌==◌, if◌then◌else◌, require, starts_with,
}
use zeromq.Mechanism
use zeromq.Mechanism.{
  Mechanism, Settings, SocketType, zmq_req, zmq_dealer, zmq_router, Rc, ok, eproto, eagain,
  add_property, socket_type_name, identity_name, socket_type_string, parse_metadata,
}

pub data State : Type 0 where
  sending_hello waiting_for_welcome sending_initiate waiting_for_ready error_command_received
        ready :
      State

pub record PlainClient : Type 0 where
  pub mechanism : Mechanism
  pub state : State

abbrev pub new : Settings → PlainClient
new o = record { mechanism = Mechanism.new o; state = sending_hello }

abbrev pub hello : List ℕ
hello = 5 ∷ 72 ∷ 69 ∷ 76 ∷ 76 ∷ 79 ∷ []

abbrev pub welcome : List ℕ
welcome = 7 ∷ 87 ∷ 69 ∷ 76 ∷ 67 ∷ 79 ∷ 77 ∷ 69 ∷ []

abbrev pub initiate : List ℕ
initiate = 8 ∷ 73 ∷ 78 ∷ 73 ∷ 84 ∷ 73 ∷ 65 ∷ 84 ∷ 69 ∷ []

abbrev pub ready_name : List ℕ
ready_name = 5 ∷ 82 ∷ 69 ∷ 65 ∷ 68 ∷ 89 ∷ []

abbrev pub error_name : List ℕ
error_name = 5 ∷ 69 ∷ 82 ∷ 82 ∷ 79 ∷ 82 ∷ []

unfoldable pub produce_hello : Settings → Option (List ℕ)
produce_hello o = require (ltb (length o.plain_username) 256 && ltb (length o.plain_password) 256) (
    some (
      hello
      ++ (length o.plain_username
          ∷ (o.plain_username ++ (length o.plain_password ∷ o.plain_password)))))

-- The types of socket that tell their identity.
abbrev pub tells_identity : SocketType → Bool
tells_identity t = elim t [ zmq_req ↦ true | zmq_dealer ↦ true | zmq_router ↦ true | _ ↦ false ]

-- The properties that are sent after the name of a command.
unfoldable pub own_properties : Settings → List ℕ
own_properties o =
    let identity = if tells_identity o.type then add_property identity_name o.identity else [] in
    add_property socket_type_name (socket_type_string o.type) ++ identity

abbrev pub produce_initiate : Settings → List ℕ
produce_initiate o = initiate ++ own_properties o

-- `errno` or 0, the command, and the client after it.
unfoldable pub next_handshake_command : PlainClient → Option (Rc × List ℕ × PlainClient)
next_handshake_command c = elim c.state [
  | sending_hello ↦ elim (produce_hello c.mechanism.options) [
    | none ↦ none
    | some command ↦ some (ok, command, record c { state = waiting_for_welcome })
  ]
  | sending_initiate ↦
      some (ok, produce_initiate c.mechanism.options, record c { state = waiting_for_ready })
  | _ ↦ some (eagain, [], c)
]

unfoldable pub process_welcome : List ℕ → PlainClient → Rc × PlainClient
process_welcome bytes c = elim c.state [
  | waiting_for_welcome ↦
      if not (length bytes == 8) then (eproto, c) else (ok, record c { state = sending_initiate })
  | _ ↦ (eproto, c)
]

unfoldable pub process_ready : List ℕ → PlainClient → Rc × PlainClient
process_ready bytes c =
    let (rc, m) = parse_metadata false (drop 6 bytes) c.mechanism in
    let parsed : PlainClient = record c { mechanism = m } in
    elim c.state [
      | waiting_for_ready ↦ elim rc [ ok ↦ (ok, record parsed { state = ready }) | e ↦ (e, parsed) ]
      | _ ↦ (eproto, c)
    ]

unfoldable pub process_error : List ℕ → PlainClient → Rc × PlainClient
process_error bytes c =
    let noted : PlainClient = record c { state = error_command_received } in
    let outcome =
      if ltb (length bytes) 7
      then (eproto, c)
      else if ltb (length bytes - 7) (get_or bytes 6 0)
      then (eproto, c)
      else (ok, noted) in
    elim c.state [ waiting_for_welcome ↦ outcome | waiting_for_ready ↦ outcome | _ ↦ (eproto, c) ]

unfoldable pub process_handshake_command : List ℕ → PlainClient → Rc × PlainClient
unfolding process_welcome process_ready process_error
process_handshake_command bytes c =
    if starts_with welcome bytes
    then process_welcome bytes c
    else if starts_with ready_name bytes
    then process_ready bytes c
    else if starts_with error_name bytes
    then process_error bytes c
    else (eproto, c)

abbrev pub status : PlainClient → Mechanism.Status
status p = elim p.state [
  | ready ↦ Mechanism.ready
  | error_command_received ↦ Mechanism.error
  | _ ↦ Mechanism.handshaking
]
