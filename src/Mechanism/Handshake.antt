-- ===== src/Mechanism/Handshake.antt =====
-- The handshake of a PLAIN client and a PLAIN server: each command of one is handed to the other.
use zeromq.Prelude.{
  ℕ, ◌^◌, ◌<◌, ◌≡◌, refl, sym, ap, ◌∙◌, true, false, Option, none, some, List, length, ◌>>=◌,
}
use zeromq.Mechanism
use zeromq.Mechanism.{
  Mechanism, Settings, SocketType, zmq_pair, Rc, ok, eproto, eagain, Dict, check_socket_type,
  socket_type_string, socket_type_name, identity_name, check_property, store_property,
  unless_failed, parse_metadata, add_property,
}
use zeromq.Mechanism.Symmetric.{check_socket_type_comm}
use zeromq.Mechanism.Zap.{Zap}
use zeromq.Mechanism.PlainClient
use zeromq.Mechanism.PlainClient.{
  PlainClient, hello, welcome, initiate, ready_name, error_name, tells_identity, own_properties,
  produce_hello, produce_initiate,
}
use zeromq.Mechanism.PlainServer
use zeromq.Mechanism.PlainServer.{PlainServer, credentials, produce_ready}
use zeromq.Mechanism.Commands.{
  identity_for, parse_metadata-own_properties, credentials-produce_hello,
}

abbrev both_of : Rc × PlainServer → PlainClient → Option (PlainClient × PlainServer)
both_of (rc, s) c = elim rc [ ok ↦ some (c, s) | _ ↦ none ]

-- The client's command goes to the server, or the server's to the client; `none` where one of them fails.
unfoldable pub ask : PlainClient → PlainServer → Option (PlainClient × PlainServer)
ask c s = PlainClient.next_handshake_command c >>= λ (rc, command, c'). (elim rc [
  | ok ↦ both_of (PlainServer.process_handshake_command command s) c'
  | _ ↦ none
])

abbrev both_of_client : Rc × PlainClient → PlainServer → Option (PlainClient × PlainServer)
both_of_client (rc, c) s = elim rc [ ok ↦ some (c, s) | _ ↦ none ]

unfoldable pub answer : PlainClient → PlainServer → Option (PlainClient × PlainServer)
answer c s = PlainServer.next_handshake_command s >>= λ (rc, command, s'). (elim rc [
  | ok ↦ both_of_client (PlainClient.process_handshake_command command c) s'
  | _ ↦ none
])

unfoldable pub handshake : PlainClient → PlainServer → Option (PlainClient × PlainServer)
unfolding ask answer
handshake c s =
    ask c s >>= λ (c1, s1). (answer c1 s1 >>= λ (c2, s2). (ask c2 s2 >>= λ (c3, s3). answer c3 s3))

-- A round of each direction, from what its parts do.
pub ask_lem :
    (c c' : PlainClient) (s s' : PlainServer) (command : List ℕ)
    → PlainClient.next_handshake_command c ≡ some (ok, command, c')
    → PlainServer.process_handshake_command command s ≡ (ok, s')
    → ask c s ≡ some (c', s')
unfolding ask
ask_lem c c' s s' command e e' = rw (ask, e, e') refl

pub answer_lem :
    (c c' : PlainClient) (s s' : PlainServer) (command : List ℕ)
    → PlainServer.next_handshake_command s ≡ some (ok, command, s')
    → PlainClient.process_handshake_command command c ≡ (ok, c')
    → answer c s ≡ some (c', s')
unfolding answer
answer_lem c c' s s' command e e' = rw (answer, e, e') refl

abbrev at_server : PlainServer.State → PlainServer → PlainServer
at_server st s = record s { state = st }

module _ (o os : Settings) (address : List ℕ) (z : Zap) where
  abbrev s0 : PlainServer
  s0 = PlainServer.new os address z

  abbrev client : PlainClient.State → PlainClient
  client st = record { mechanism = Mechanism.new o; state = st }

  pub hello_sent :
      (command : List ℕ)
      → produce_hello o ≡ some command
      → PlainClient.next_handshake_command (PlainClient.new o)
        ≡ some (ok, command, client PlainClient.waiting_for_welcome)
  unfolding PlainClient.next_handshake_command
  hello_sent command e = rw (PlainClient.next_handshake_command, e) refl

  hello_read :
      (command : List ℕ) (u p : List ℕ)
      → credentials command ≡ some (u, p)
      → z.connected ≡ false
      → PlainServer.process_handshake_command command s0
        ≡ (ok, at_server PlainServer.sending_welcome s0)
  unfolding PlainServer.process_handshake_command PlainServer.process_hello PlainServer.authenticate
  hello_read command u p e n =
      rw
        (
          PlainServer.process_handshake_command, PlainServer.process_hello, e,
          PlainServer.authenticate, n,
        )
        refl

  initiate_read :
      (m : Mechanism)
      → parse_metadata false (own_properties o) (Mechanism.new os) ≡ (ok, m)
      → PlainServer.process_handshake_command
          (produce_initiate o)
          (at_server PlainServer.waiting_for_initiate s0)
        ≡ (ok, record s0 { mechanism = m; state = PlainServer.sending_ready })
  unfolding PlainServer.process_handshake_command PlainServer.process_initiate
  initiate_read m e =
      rw (PlainServer.process_handshake_command, PlainServer.process_initiate, e)
        (ap (λ x. (ok, record s0 { mechanism = x.1; state = PlainServer.sending_ready })) e)

  ready_read :
      (m : Mechanism)
      → parse_metadata false (own_properties os) (Mechanism.new o) ≡ (ok, m)
      → PlainClient.process_handshake_command
          (produce_ready os)
          (client PlainClient.waiting_for_ready)
        ≡ (ok, record { mechanism = m; state = PlainClient.ready })
  unfolding PlainClient.process_handshake_command PlainClient.process_ready
  ready_read m e =
      rw (PlainClient.process_handshake_command, PlainClient.process_ready, e)
        (ap (λ x. (ok, record { mechanism = x.1; state = PlainClient.ready })) e)

  ready_sent :
      (m : Mechanism)
      → m.options ≡ os
      → PlainServer.next_handshake_command
          (record s0 { mechanism = m; state = PlainServer.sending_ready })
        ≡ some (ok, produce_ready os, record s0 { mechanism = m; state = PlainServer.ready })
  unfolding PlainServer.next_handshake_command
  ready_sent m e =
      ap (λ x. some (ok, produce_ready x, record s0 { mechanism = m; state = PlainServer.ready })) e

  welcome_passes :
      answer (client PlainClient.waiting_for_welcome) (at_server PlainServer.sending_welcome s0)
      ≡ some (client PlainClient.sending_initiate, at_server PlainServer.waiting_for_initiate s0)
  unfolding answer PlainServer.next_handshake_command PlainClient.process_handshake_command
      PlainClient.process_welcome
  welcome_passes = refl

  initiate_sent :
      PlainClient.next_handshake_command (client PlainClient.sending_initiate)
      ≡ some (ok, produce_initiate o, client PlainClient.waiting_for_ready)
  unfolding PlainClient.next_handshake_command
  initiate_sent = refl

  -- Without a ZAP handler, a client and a server whose types of socket talk to each other come to the end of
  -- the handshake: both are ready, and each knows the identity of the other if it wants it and is told.
  pub handshake_ends :
      z.connected ≡ false
      → length o.plain_username < 256
      → length o.plain_password < 256
      → length o.identity < 2 ^ 31
      → length os.identity < 2 ^ 31
      → check_socket_type o.type (socket_type_string os.type) ≡ true
      → (c : PlainClient) × (s : PlainServer) × (handshake (PlainClient.new o) s0 ≡ some (c, s))
        × (PlainClient.status c ≡ Mechanism.ready)
        × (PlainServer.status s ≡ Mechanism.ready)
        × (c.mechanism.peer_identity ≡ identity_for os (Mechanism.new o))
        × (s.mechanism.peer_identity ≡ identity_for o (Mechanism.new os))
  unfolding handshake
  handshake_ends none_there hu hp hi his fits =
      let (command, e, c) = credentials-produce_hello o hu hp in
      let (ms, es, is, os_same) =
        parse_metadata-own_properties o (Mechanism.new os) hi
          (sym (check_socket_type_comm o.type os.type) ∙ fits) in
      let (mc, ec, ic, o_same) = parse_metadata-own_properties os (Mechanism.new o) his fits in
      let c0 = PlainClient.new o in
      let c1 = client PlainClient.waiting_for_welcome in
      let s1 = at_server PlainServer.sending_welcome s0 in
      let c2 = client PlainClient.sending_initiate in
      let s2 = at_server PlainServer.waiting_for_initiate s0 in
      let c3 = client PlainClient.waiting_for_ready in
      let s3 : PlainServer = record s0 { mechanism = ms; state = PlainServer.sending_ready } in
      let c4 : PlainClient = record { mechanism = mc; state = PlainClient.ready } in
      let s4 : PlainServer = record s0 { mechanism = ms; state = PlainServer.ready } in
      let r1 =
        ask_lem c0 c1 s0 s1 command (hello_sent command e)
          (hello_read command o.plain_username o.plain_password c none_there) in
      let r3 = ask_lem c2 c3 s2 s3 (produce_initiate o) initiate_sent (initiate_read ms es) in
      let r4 =
        answer_lem c3 c4 s3 s4 (produce_ready os) (ready_sent ms os_same) (ready_read mc ec) in
      (c4, s4, rw (r1, welcome_passes, r3, r4) refl, refl, refl, ic, is)
