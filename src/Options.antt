-- ===== src/Options.antt =====
-- src/options.cpp: `options_t`, as built without CURVE, GSSAPI and VMCI. A value is handed over as the
-- bytes at `optval_`, `optvallen_` of them, and may be NULL; a set or get that fails with EINVAL is
-- `none`. Numbers in memory are little-endian and in two's complement, `int` has 32 bits.
pub mod Set
pub mod Get
mod RoundTrip
mod HeartbeatTtl
mod Tests
pub mod Whole
pub use zeromq.Prelude.{ℤ, pos, negsuc, geq, ◌=ℤ◌}
use zeromq.Prelude.{
  ℕ, zero, suc, ◌+◌, ◌-◌, ◌*◌, ◌/◌, ◌%◌, ◌^◌, Bool, true, false, List, [], ◌∷◌, length, ltb, leb,
  ◌==◌, ◌||◌, if◌then◌else◌,
}

-- A number in memory, lowest byte first.
unfoldable pub load : List ℕ → ℕ
load [] = 0
load (b ∷ bs) = b + 256 * load bs

unfoldable pub store : ℕ → ℕ → List ℕ
store zero n = []
store (suc k) n = (n % 256) ∷ store k (n / 256)

-- Two's complement, where `half` is the number of non-negative values.
unfoldable pub signed : ℕ → ℕ → ℤ
signed half n = if ltb n half then pos n else negsuc (2 * half - 1 - n)

unfoldable pub unsigned : ℕ → ℤ → ℕ
unsigned half (pos n) = n
unsigned half (negsuc n) = 2 * half - 1 - n

pub record Optval : Type 0 where
  pub null : Bool
  pub bytes : List ℕ

abbrev pub is_int : Optval → Bool
is_int v = length v.bytes == 4

-- `int value = 0; if (is_int) memcpy (&value, optval_, sizeof (int))`
unfoldable pub value : Optval → ℤ
value v = if is_int v then signed (2 ^ 31) (load v.bytes) else pos 0

abbrev pub at_least : Optval → ℤ → Bool
at_least v bound = geq (value v) bound

abbrev pub is_bit : Optval → Bool
is_bit v = value v =ℤ pos 0 || value v =ℤ pos 1

abbrev pub zmq_null : ℤ
zmq_null = pos 0

abbrev pub zmq_plain : ℤ
zmq_plain = pos 1

pub record Options : Type 0 where
  pub sndhwm : ℤ
  pub rcvhwm : ℤ
  pub rate : ℤ
  pub recovery_ivl : ℤ
  pub multicast_hops : ℤ
  pub multicast_maxtpdu : ℤ
  pub sndbuf : ℤ
  pub rcvbuf : ℤ
  pub tos : ℤ
  pub linger : ℤ
  pub connect_timeout : ℤ
  pub tcp_maxrt : ℤ
  pub reconnect_ivl : ℤ
  pub reconnect_ivl_max : ℤ
  pub backlog : ℤ
  pub rcvtimeo : ℤ
  pub sndtimeo : ℤ
  pub ipv6 : ℤ
  pub immediate : ℤ
  pub tcp_keepalive : ℤ
  pub tcp_keepalive_cnt : ℤ
  pub tcp_keepalive_idle : ℤ
  pub tcp_keepalive_intvl : ℤ
  pub mechanism : ℤ
  pub as_server : ℤ
  pub handshake_ivl : ℤ
  pub heartbeat_interval : ℤ
  pub heartbeat_timeout : ℤ
  pub use_fd : ℤ
  pub type : ℤ
  pub maxmsgsize : ℤ
  pub affinity : ℕ
  pub heartbeat_ttl : ℕ
  pub conflate : Bool
  pub invert_matching : Bool
  pub identity : List ℕ
  pub socks_proxy_address : List ℕ
  pub plain_username : List ℕ
  pub plain_password : List ℕ
  pub zap_domain : List ℕ

abbrev pub new : Options
new = record {
  sndhwm = pos 1000;
  rcvhwm = pos 1000;
  rate = pos 100;
  recovery_ivl = pos 10000;
  multicast_hops = pos 1;
  multicast_maxtpdu = pos 1500;
  sndbuf = negsuc 0;
  rcvbuf = negsuc 0;
  tos = pos 0;
  linger = negsuc 0;
  connect_timeout = pos 0;
  tcp_maxrt = pos 0;
  reconnect_ivl = pos 100;
  reconnect_ivl_max = pos 0;
  backlog = pos 100;
  rcvtimeo = negsuc 0;
  sndtimeo = negsuc 0;
  ipv6 = pos 0;
  immediate = pos 0;
  tcp_keepalive = negsuc 0;
  tcp_keepalive_cnt = negsuc 0;
  tcp_keepalive_idle = negsuc 0;
  tcp_keepalive_intvl = negsuc 0;
  mechanism = pos 0;
  as_server = pos 0;
  handshake_ivl = pos 30000;
  heartbeat_interval = pos 0;
  heartbeat_timeout = negsuc 0;
  use_fd = negsuc 0;
  type = negsuc 0;
  maxmsgsize = negsuc 0;
  affinity = 0;
  heartbeat_ttl = 0;
  conflate = false;
  invert_matching = false;
  identity = [];
  socks_proxy_address = [];
  plain_username = [];
  plain_password = [];
  zap_domain = [];
}

-- The option numbers of the two switches, in groups.
pub data BasicKey : Type 0 where
  zmq_sndhwm zmq_rcvhwm zmq_affinity zmq_identity zmq_rate zmq_recovery_ivl zmq_sndbuf zmq_rcvbuf
        zmq_tos zmq_linger zmq_connect_timeout zmq_tcp_maxrt zmq_reconnect_ivl zmq_reconnect_ivl_max
        zmq_backlog zmq_maxmsgsize zmq_multicast_hops zmq_multicast_maxtpdu zmq_rcvtimeo
        zmq_sndtimeo :
      BasicKey

pub data NetworkKey : Type 0 where
  zmq_ipv4only zmq_ipv6 zmq_tcp_keepalive zmq_tcp_keepalive_cnt zmq_tcp_keepalive_idle
        zmq_tcp_keepalive_intvl zmq_immediate zmq_socks_proxy :
      NetworkKey

pub data PlainKey : Type 0 where
  zmq_plain_server zmq_plain_username zmq_plain_password zmq_zap_domain : PlainKey

pub data TimingKey : Type 0 where
  zmq_handshake_ivl zmq_invert_matching zmq_heartbeat_ivl zmq_heartbeat_ttl zmq_heartbeat_timeout :
      TimingKey

pub data Key : Type 0 where
  basic : BasicKey → Key
  network : NetworkKey → Key
  plain : PlainKey → Key
  timing : TimingKey → Key
  zmq_conflate zmq_use_fd zmq_type zmq_mechanism zmq_other : Key
