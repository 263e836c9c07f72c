-- ===== src/Mechanism/Tests.antt =====
-- The theorems on the mechanisms at concrete sockets.
use Prim.{tt}
use zeromq.Prelude.{ℕ, ◌≡◌, refl, true, false, some, List, [], ◌∷◌, ◌>>=◌, arith, inl, ◌++◌}
use zeromq.Msg
use zeromq.Msg.{Msg}
use zeromq.Mechanism
use zeromq.Mechanism.{
  Mechanism, Settings, zmq_dealer, zmq_router, zmq_req, zmq_rep, Rc, ok, parse_metadata, parse,
  socket_type_string, check_socket_type, peers, insert, set_user_id, check_property, store_property,
  socket_type_name, unless_failed,
}
use zeromq.Mechanism.Metadata.{add_all, accept_all, parse_metadata-add_all}
use zeromq.Mechanism.CutOff.{parse_metadata_cut_off}
use zeromq.Wire.{put_uint32}
use zeromq.Mechanism.Symmetric.{check_socket_type_comm}
use zeromq.Mechanism.Zap.{
  Zap, send_zap_request, receive_and_process_zap_reply, read_frames, process_reply,
}
use zeromq.Mechanism.PlainClient
use zeromq.Mechanism.PlainClient.{PlainClient, produce_hello, own_properties}
use zeromq.Mechanism.PlainServer
use zeromq.Mechanism.PlainServer.{PlainServer, credentials}
use zeromq.Mechanism.Commands.{identity_for}
use zeromq.Mechanism.Handshake.{ask, answer, handshake, handshake_ends}
use zeromq.Mechanism.Refusal.{with_reply, handshake_refused}

abbrev dealer : Settings
dealer = record {
  type = zmq_dealer;
  recv_identity = false;
  identity = 65 ∷ 66 ∷ [];
  plain_username = 117 ∷ [];
  plain_password = 112 ∷ 119 ∷ [];
  zap_domain = [];
}

abbrev router : Settings
router = record dealer { type = zmq_router; recv_identity = true; identity = 82 ∷ [] }

abbrev properties : List (List ℕ × List ℕ)
properties = (88 ∷ [], 1 ∷ 2 ∷ []) ∷ (89 ∷ [], []) ∷ []

parse_metadata-add_all_example :
    parse_metadata false (add_all properties) (Mechanism.new dealer)
    ≡ accept_all false properties (Mechanism.new dealer)
parse_metadata-add_all_example = parse_metadata-add_all false properties (Mechanism.new dealer) (
  record { name_fits = omega arith; value_fits = omega arith },
  (record { name_fits = omega arith; value_fits = omega arith }, tt),
)

-- The type of a ROUTER socket.
abbrev known : List (List ℕ × List ℕ)
known = (socket_type_name, socket_type_string zmq_router) ∷ []

abbrev knows_peer : Mechanism
knows_peer =
    store_property false socket_type_name (socket_type_string zmq_router) (Mechanism.new dealer)

parse_metadata_cut_off_example :
    (parse_metadata false (add_all known ++ 2 ∷ 88 ∷ 89 ∷ []) (Mechanism.new dealer)
      ≡ (ok, knows_peer))
    × (parse_metadata false
          (add_all known ++ 2 ∷ 88 ∷ 89 ∷ 0 ∷ 0 ∷ 0 ∷ 9 ∷ [])
          (Mechanism.new dealer)
        ≡ (ok, knows_peer))
unfolding accept_all check_property check_socket_type peers socket_type_string store_property insert
    put_uint32 unless_failed
parse_metadata_cut_off_example =
    parse_metadata_cut_off false known (88 ∷ 89 ∷ []) 9 (Mechanism.new dealer) knows_peer
      (record { name_fits = omega arith; value_fits = omega arith }, tt) refl (omega arith)
      (omega arith) (omega arith)

check_socket_type_comm_example :
    check_socket_type zmq_req (socket_type_string zmq_rep)
    ≡ check_socket_type zmq_rep (socket_type_string zmq_req)
check_socket_type_comm_example = check_socket_type_comm zmq_req zmq_rep

abbrev no_zap : Zap
no_zap = record { connected = false; requests = []; replies = [] }

accepted : check_socket_type zmq_dealer (socket_type_string zmq_router) ≡ true
unfolding check_socket_type peers socket_type_string
accepted = refl

handshake_ends_example :
    (c : PlainClient) × (s : PlainServer) × (handshake
        (PlainClient.new dealer)
        (PlainServer.new router [] no_zap)
      ≡ some (c, s))
    × (PlainClient.status c ≡ Mechanism.ready)
    × (PlainServer.status s ≡ Mechanism.ready)
    × (c.mechanism.peer_identity ≡ identity_for router (Mechanism.new dealer))
    × (s.mechanism.peer_identity ≡ identity_for dealer (Mechanism.new router))
handshake_ends_example =
    handshake_ends dealer router [] no_zap refl (omega arith) (omega arith) (omega arith)
      (omega arith) accepted

-- A handler that answers "400".
abbrev part : List ℕ → Msg
part bytes = record Msg.empty { more = true; body = bytes }

abbrev refusing : Zap
refusing = record {
  connected = true;
  requests = [];
  replies =
      part []
      ∷ part (49 ∷ 46 ∷ 48 ∷ [])
      ∷ part (49 ∷ [])
      ∷ part (52 ∷ 48 ∷ 48 ∷ [])
      ∷ part []
      ∷ part []
      ∷ Msg.empty
      ∷ [];
}

abbrev after_request : Zap
after_request = record (send_zap_request [] router (117 ∷ []) (112 ∷ 119 ∷ []) refusing) {
  replies = [];
}

abbrev no_user : Mechanism
no_user = set_user_id [] (Mechanism.new router)

handshake_refused_example :
    (ask (PlainClient.new dealer) (PlainServer.new router [] refusing) >>= λ (c, s).
    (with_reply refusing s >>= λ s'. answer c s'))
    ≡ some (
      record { mechanism = Mechanism.new dealer; state = PlainClient.error_command_received },
      record {
        mechanism = no_user;
        zap = after_request;
        peer_address = [];
        status_code = 52 ∷ 48 ∷ 48 ∷ [];
        state = PlainServer.error_command_sent;
      },
    )
unfolding receive_and_process_zap_reply read_frames process_reply send_zap_request parse_metadata
    parse set_user_id insert
handshake_refused_example =
    handshake_refused dealer router [] refusing (52 ∷ 48 ∷ 48 ∷ []) no_user refusing after_request
      refl (omega arith) (omega arith) (inl refl) refl refl
