-- ===== src/Mechanism/Refusal.antt =====
-- The handshake of a PLAIN client whose username or password the ZAP handler does not accept.
use zeromq.Prelude.{
  ℕ, ◌<◌, ◌≡◌, refl, ap, ◌∙◌, true, false, Option, none, some, ◌⊎◌, inl, inr, List, [], ◌∷◌, ◌++◌,
  length, equals, ◌>>=◌,
}
use zeromq.Mechanism
use zeromq.Mechanism.{
  Mechanism, Settings, SocketType, zmq_pair, Rc, ok, eproto, eagain, Dict, check_socket_type,
  socket_type_string, socket_type_name, identity_name, check_property, store_property,
  unless_failed, parse_metadata, add_property,
}
use zeromq.Mechanism.Zap.{Zap, send_zap_request, receive_and_process_zap_reply}
use zeromq.Mechanism.PlainClient
use zeromq.Mechanism.PlainClient.{
  PlainClient, hello, welcome, initiate, ready_name, error_name, tells_identity, own_properties,
  produce_hello, produce_initiate,
}
use zeromq.Mechanism.PlainServer
use zeromq.Mechanism.PlainServer.{PlainServer, waiting_for_zap_reply, credentials, produce_ready}
use zeromq.Mechanism.Commands.{credentials-produce_hello}
use zeromq.Mechanism.Handshake.{ask, answer, ask_lem, answer_lem, hello_sent}

abbrev if_ok : Rc × PlainServer → Option PlainServer
if_ok (rc, s) = elim rc [ ok ↦ some s | _ ↦ none ]

-- A server that waits for the reply finds the pipe to the ZAP handler with what has come, when its session calls
-- `zap_msg_available`; any other goes on. `none` is an error.
abbrev pub with_reply : Zap → PlainServer → Option PlainServer
with_reply z s = elim s.state [
  | waiting_for_zap_reply ↦ if_ok (PlainServer.zap_msg_available (record s { zap = z }))
  | _ ↦ some s
]

-- A ZAP handler that is there answers with another status code than 200.
module _ (o os : Settings) (address : List ℕ) (z : Zap) (code : List ℕ) where
  abbrev refusing : Mechanism → Zap → PlainServer.State → PlainServer
  refusing m z' st = record {
    mechanism = m;
    zap = z';
    peer_address = address;
    status_code = code;
    state = st;
  }

  -- The server that waits for the reply.
  abbrev waiting : Mechanism → Zap → PlainServer
  waiting m z' = record {
    mechanism = m;
    zap = z';
    peer_address = address;
    status_code = [];
    state = PlainServer.waiting_for_zap_reply;
  }

  refused_hello :
      (command u p : List ℕ) (m : Mechanism) (z' : Zap)
      → credentials command ≡ some (u, p)
      → z.connected ≡ true
      → receive_and_process_zap_reply (send_zap_request address os u p z) (Mechanism.new os)
        ≡ (ok, some code, m, z')
      → equals code (50 ∷ 48 ∷ 48 ∷ []) ≡ false
      → PlainServer.process_handshake_command command (PlainServer.new os address z)
        ≡ (ok, refusing m z' PlainServer.sending_error)
  unfolding PlainServer.process_handshake_command PlainServer.process_hello PlainServer.authenticate
  refused_hello command u p m z' e there r other =
      let s : PlainServer = PlainServer.new os address z in
      let s' : PlainServer = record s { zap = send_zap_request address os u p z } in
      rw
        (
          PlainServer.process_handshake_command, PlainServer.process_hello, e,
          PlainServer.authenticate,
        )
        (simp there
          (ap (λ x. PlainServer.after_request (PlainServer.received s' x)) r ∙ rw other refl))

  refusal_sent :
      (m : Mechanism) (z' : Zap)
      → length code ≡ 3
      → PlainServer.next_handshake_command (refusing m z' PlainServer.sending_error)
        ≡ some
            (ok, error_name ++ (length code ∷ code), refusing m z' PlainServer.error_command_sent)
  unfolding PlainServer.next_handshake_command PlainServer.produce_error
  refusal_sent m z' h = rw (PlainServer.next_handshake_command, PlainServer.produce_error, h) refl

  refusal_read :
      (m : Mechanism)
      → length code ≡ 3
      → PlainClient.process_handshake_command
          (error_name ++ (length code ∷ code))
          (record { mechanism = m; state = PlainClient.waiting_for_welcome })
        ≡ (ok, record { mechanism = m; state = PlainClient.error_command_received })
  unfolding PlainClient.process_handshake_command PlainClient.process_error
  refusal_read m h = rw h refl

  -- The reply is not there yet: the server waits.
  waiting_hello :
      (command u p : List ℕ) (m : Mechanism) (z' : Zap)
      → credentials command ≡ some (u, p)
      → z.connected ≡ true
      → receive_and_process_zap_reply (send_zap_request address os u p z) (Mechanism.new os)
        ≡ (eagain, none, m, z')
      → PlainServer.process_handshake_command command (PlainServer.new os address z)
        ≡ (ok, waiting m z')
  unfolding PlainServer.process_handshake_command PlainServer.process_hello PlainServer.authenticate
  waiting_hello command u p m z' e there r =
      let s : PlainServer = PlainServer.new os address z in
      let s' : PlainServer = record s { zap = send_zap_request address os u p z } in
      rw
        (
          PlainServer.process_handshake_command, PlainServer.process_hello, e,
          PlainServer.authenticate,
        )
        (simp there (ap (λ x. PlainServer.after_request (PlainServer.received s' x)) r))

  -- It comes while the server waits.
  reply_comes :
      (m1 m : Mechanism) (z1 z2 z' : Zap)
      → receive_and_process_zap_reply z2 m1 ≡ (ok, some code, m, z')
      → equals code (50 ∷ 48 ∷ 48 ∷ []) ≡ false
      → with_reply z2 (waiting m1 z1) ≡ some (refusing m z' PlainServer.sending_error)
  unfolding PlainServer.zap_msg_available
  reply_comes m1 m z1 z2 z' r other =
      let s = waiting m1 z2 in
      ap (λ x. if_ok (replied (PlainServer.received s x))) r ∙ rw other refl
    where
      replied : Rc × PlainServer → Rc × PlainServer
      replied (rc, s) = elim rc [ ok ↦ (ok, PlainServer.after_status s) | e ↦ (e, s) ]

  -- The answer of the ZAP handler, which is there at the first look, or when the server waits for it and
  -- the pipe to the handler is `z2`.
  abbrev pub Answers : Zap → Mechanism → Zap → Type 0
  Answers z2 m z' =
      let z1 = send_zap_request address os o.plain_username o.plain_password z in
      (receive_and_process_zap_reply z1 (Mechanism.new os) ≡ (ok, some code, m, z'))
      ⊎ ((m1 : Mechanism) × (z1' : Zap) × (receive_and_process_zap_reply z1 (Mechanism.new os)
            ≡ (eagain, none, m1, z1'))
          × (receive_and_process_zap_reply z2 m1 ≡ (ok, some code, m, z')))

  -- If a ZAP handler answers the request, which has the username and the password of the PLAIN client, of
  -- fewer than 256 bytes each, with a well-formed reply of another status code than 200, which is there at the
  -- first look or comes as a whole while the server waits for it, the client is told so: both sides are in
  -- their error states.
  pub handshake_refused :
      (m : Mechanism) (z2 z' : Zap)
      → z.connected ≡ true
      → length o.plain_username < 256
      → length o.plain_password < 256
      → Answers z2 m z'
      → length code ≡ 3
      → equals code (50 ∷ 48 ∷ 48 ∷ []) ≡ false
      → (ask (PlainClient.new o) (PlainServer.new os address z) >>= λ (c, s).
          (with_reply z2 s >>= λ s'. answer c s'))
        ≡ some (
          record { mechanism = Mechanism.new o; state = PlainClient.error_command_received },
          refusing m z' PlainServer.error_command_sent,
        )
  handshake_refused m z2 z' there hu hp answers three other =
      let (command, e, c) = credentials-produce_hello o hu hp in
      let c0 = PlainClient.new o in
      let c1 : PlainClient = record {
        mechanism = Mechanism.new o;
        state = PlainClient.waiting_for_welcome;
      } in
      let c2 : PlainClient = record {
        mechanism = Mechanism.new o;
        state = PlainClient.error_command_received;
      } in
      let s0 = PlainServer.new os address z in
      let s1 = refusing m z' PlainServer.sending_error in
      let s2 = refusing m z' PlainServer.error_command_sent in
      let sent = hello_sent o os address z command e in
      let r2 =
        answer_lem c1 c2 s1 s2 (error_name ++ (length code ∷ code)) (refusal_sent m z' three)
          (refusal_read (Mechanism.new o) three) in
      elim answers [
        | inl r ↦
            let r1 =
              ask_lem c0 c1 s0 s1 command sent
                (refused_hello command o.plain_username o.plain_password m z' c there r other) in
            rw (r1, r2) refl
        | inr (m1, z1, wait, r) ↦
            let w = waiting m1 z1 in
            let r1 =
              ask_lem c0 c1 s0 w command sent
                (waiting_hello command o.plain_username o.plain_password m1 z1 c there wait) in
            ap (λ x. x >>= λ (c, s). (with_reply z2 s >>= λ s'. answer c s')) r1
            ∙ ap (λ x. x >>= λ s'. answer c1 s') (reply_comes m1 m z1 z2 z' r other)
            ∙ r2
      ]
