-- ===== src/Mechanism.antt =====
-- src/mechanism.cpp: what the security mechanisms share. A string is the list of its characters' codes, and a
-- message the list of its bytes. `Settings` is what is read of the options. `property` is the default, which
-- accepts everything. A dictionary is a list of pairs.
pub mod Metadata
pub mod CutOff
pub mod Symmetric
pub mod Zap
pub mod PlainClient
pub mod PlainServer
pub mod Commands
pub mod Handshake
pub mod Refusal
mod Tests
use zeromq.Prelude.{
  ℕ, zero, suc, ◌+◌, ◌-◌, ◌<◌, Bool, true, false, not, ◌&&◌, ◌||◌, Option, none, some, List, [],
  ◌∷◌, ◌++◌, length, take, drop, ltb, leb, ◌==◌, if◌then◌else◌, equals,
}
use zeromq.Wire.{put_uint32, get_uint32}

-- The options `ZMQ_PAIR` and so on.
pub data SocketType : Type 0 where
  zmq_pair zmq_pub zmq_sub zmq_req zmq_rep zmq_dealer zmq_router zmq_pull zmq_push zmq_xpub zmq_xsub
        zmq_stream zmq_server zmq_client zmq_radio zmq_dish zmq_gather zmq_scatter zmq_dgram :
      SocketType

unfoldable pub socket_type_string : SocketType → List ℕ
socket_type_string zmq_pair = 80 ∷ 65 ∷ 73 ∷ 82 ∷ []
socket_type_string zmq_pub = 80 ∷ 85 ∷ 66 ∷ []
socket_type_string zmq_sub = 83 ∷ 85 ∷ 66 ∷ []
socket_type_string zmq_req = 82 ∷ 69 ∷ 81 ∷ []
socket_type_string zmq_rep = 82 ∷ 69 ∷ 80 ∷ []
socket_type_string zmq_dealer = 68 ∷ 69 ∷ 65 ∷ 76 ∷ 69 ∷ 82 ∷ []
socket_type_string zmq_router = 82 ∷ 79 ∷ 85 ∷ 84 ∷ 69 ∷ 82 ∷ []
socket_type_string zmq_pull = 80 ∷ 85 ∷ 76 ∷ 76 ∷ []
socket_type_string zmq_push = 80 ∷ 85 ∷ 83 ∷ 72 ∷ []
socket_type_string zmq_xpub = 88 ∷ 80 ∷ 85 ∷ 66 ∷ []
socket_type_string zmq_xsub = 88 ∷ 83 ∷ 85 ∷ 66 ∷ []
socket_type_string zmq_stream = 83 ∷ 84 ∷ 82 ∷ 69 ∷ 65 ∷ 77 ∷ []
socket_type_string zmq_server = 83 ∷ 69 ∷ 82 ∷ 86 ∷ 69 ∷ 82 ∷ []
socket_type_string zmq_client = 67 ∷ 76 ∷ 73 ∷ 69 ∷ 78 ∷ 84 ∷ []
socket_type_string zmq_radio = 82 ∷ 65 ∷ 68 ∷ 73 ∷ 79 ∷ []
socket_type_string zmq_dish = 68 ∷ 73 ∷ 83 ∷ 72 ∷ []
socket_type_string zmq_gather = 71 ∷ 65 ∷ 84 ∷ 72 ∷ 69 ∷ 82 ∷ []
socket_type_string zmq_scatter = 83 ∷ 67 ∷ 65 ∷ 84 ∷ 84 ∷ 69 ∷ 82 ∷ []
socket_type_string zmq_dgram = 68 ∷ 71 ∷ 82 ∷ 65 ∷ 77 ∷ []

-- A name that is one of those.
abbrev pub is_one_of : List ℕ → List SocketType → Bool
is_one_of name [] = false
is_one_of name (t ∷ ts) = equals name (socket_type_string t) || is_one_of name ts

-- The types that a socket talks to, as the cases list their names.
unfoldable pub peers : SocketType → List SocketType
peers zmq_pair = zmq_pair ∷ []
peers zmq_pub = zmq_sub ∷ zmq_xsub ∷ []
peers zmq_sub = zmq_pub ∷ zmq_xpub ∷ []
peers zmq_req = zmq_rep ∷ zmq_router ∷ []
peers zmq_rep = zmq_req ∷ zmq_dealer ∷ []
peers zmq_dealer = zmq_rep ∷ zmq_dealer ∷ zmq_router ∷ []
peers zmq_router = zmq_req ∷ zmq_dealer ∷ zmq_router ∷ []
peers zmq_pull = zmq_push ∷ []
peers zmq_push = zmq_pull ∷ []
peers zmq_xpub = zmq_sub ∷ zmq_xsub ∷ []
peers zmq_xsub = zmq_pub ∷ zmq_xpub ∷ []
peers zmq_stream = []
peers zmq_server = zmq_client ∷ []
peers zmq_client = zmq_server ∷ []
peers zmq_radio = zmq_dish ∷ []
peers zmq_dish = zmq_radio ∷ []
peers zmq_gather = zmq_scatter ∷ []
peers zmq_scatter = zmq_gather ∷ []
peers zmq_dgram = zmq_dgram ∷ []

unfoldable pub check_socket_type : SocketType → List ℕ → Bool
check_socket_type t name = is_one_of name (peers t)

pub record Settings : Type 0 where
  pub type : SocketType
  pub recv_identity : Bool
  pub identity : List ℕ
  pub plain_username : List ℕ
  pub plain_password : List ℕ
  pub zap_domain : List ℕ

abbrev pub Dict : Type 0
Dict = List (List ℕ × List ℕ)

pub record Mechanism : Type 0 where
  pub options : Settings
  pub peer_identity : List ℕ
  pub user_id : List ℕ
  pub zap_properties : Dict
  pub zmtp_properties : Dict

abbrev pub new : Settings → Mechanism
new o = record {
  options = o;
  peer_identity = [];
  user_id = [];
  zap_properties = [];
  zmtp_properties = [];
}

abbrev pub has : List ℕ → Dict → Bool
has k [] = false
has k ((k', v) ∷ d) = equals k k' || has k d

-- `insert` leaves an entry that is there as it is.
unfoldable pub insert : List ℕ → List ℕ → Dict → Dict
insert k v d = if has k d then d else d ++ (k, v) ∷ []

abbrev pub identity_name : List ℕ
identity_name = 73 ∷ 100 ∷ 101 ∷ 110 ∷ 116 ∷ 105 ∷ 116 ∷ 121 ∷ []

abbrev pub socket_type_name : List ℕ
socket_type_name = 83 ∷ 111 ∷ 99 ∷ 107 ∷ 101 ∷ 116 ∷ 45 ∷ 84 ∷ 121 ∷ 112 ∷ 101 ∷ []

abbrev pub user_id_name : List ℕ
user_id_name = 85 ∷ 115 ∷ 101 ∷ 114 ∷ 45 ∷ 73 ∷ 100 ∷ []

unfoldable pub set_user_id : List ℕ → Mechanism → Mechanism
set_user_id id m = record m {
  user_id = id;
  zap_properties = insert user_id_name id m.zap_properties;
}

-- The bytes that `add_property` writes.
unfoldable pub add_property : List ℕ → List ℕ → List ℕ
add_property name value = length name ∷ (name ++ (put_uint32 (length value) ++ value))

-- `status_t`
pub data Status : Type 0 where
  handshaking ready error : Status

-- What `errno` is on a failure.
pub data Rc : Type 0 where
  ok einval eproto eacces eagain efsm : Rc

-- The checks of one property.
unfoldable pub check_property : List ℕ → List ℕ → Mechanism → Rc × Mechanism
check_property name value m =
    if equals name identity_name && m.options.recv_identity
    then (ok, record m { peer_identity = value })
    else if equals name socket_type_name && not (check_socket_type m.options.type value)
    then (einval, m)
    else (ok, m)

unfoldable pub store_property : Bool → List ℕ → List ℕ → Mechanism → Mechanism
store_property zap_flag name value m =
    if zap_flag
    then record m { zap_properties = insert name value m.zap_properties }
    else record m { zmtp_properties = insert name value m.zmtp_properties }

-- The end of `parse_metadata`, where `bytes` are left.
abbrev pub at_end : List ℕ → Rc
at_end [] = ok
at_end (b ∷ bytes) = eproto

-- `rest`, but not after a failure.
unfoldable pub unless_failed : Rc → Mechanism → Rc × Mechanism → Rc × Mechanism
unless_failed ok m rest = rest
unless_failed einval m rest = (einval, m)
unless_failed eproto m rest = (eproto, m)
unless_failed eacces m rest = (eacces, m)
unless_failed eagain m rest = (eagain, m)
unless_failed efsm m rest = (efsm, m)

-- The loop of `parse_metadata`. A property takes at least one byte, so that the number of bytes is enough
-- fuel.
unfoldable pub parse : ℕ → Bool → List ℕ → Mechanism → Rc × Mechanism
parse zero zap_flag bytes m = (at_end bytes, m)
parse (suc n) zap_flag [] m = (ok, m)
parse (suc n) zap_flag (name_length ∷ bytes) m =
    let name = take name_length bytes in
    let after_name = drop name_length bytes in
    let value_length = get_uint32 after_name in
    let after_length = drop 4 after_name in
    let value = take value_length after_length in
    let after_value = drop value_length after_length in
    let (rc, m') = check_property name value m in
    let rest = parse n zap_flag after_value (store_property zap_flag name value m') in
    if length bytes == 0
    then (eproto, m)
    else if ltb (length bytes) name_length
    then (at_end bytes, m)
    else if ltb (length after_name) 4
    then (at_end after_name, m)
    else if ltb (length after_length) value_length
    then (at_end after_length, m)
    else unless_failed rc m' rest

unfoldable pub parse_metadata : Bool → List ℕ → Mechanism → Rc × Mechanism
unfolding parse
parse_metadata zap_flag bytes m = parse (length bytes) zap_flag bytes m
