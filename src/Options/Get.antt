-- ===== src/Options/Get.antt =====
-- `options_t::getsockopt`: the bytes that it writes, for a buffer of `optvallen_` bytes; `*optvallen_`
-- is their number afterwards. Where it fails, the result is `none`.
use zeromq.Prelude.{
  ℕ, zero, suc, ◌+◌, ◌-◌, ◌*◌, ◌^◌, Bool, true, false, not, Option, none, some, List, [], ◌∷◌, ◌++◌,
  length, leb, ◌==◌, ◌&&◌, if◌then◌else◌,
}
use zeromq.Options.{
  ℤ, pos, negsuc, ◌=ℤ◌, store, unsigned, zmq_plain, Options, Key, basic, network, plain, timing,
  zmq_conflate, zmq_use_fd, zmq_type, zmq_mechanism, zmq_other, BasicKey, NetworkKey, PlainKey,
  TimingKey, zmq_socks_proxy, zmq_plain_server, zmq_plain_username, zmq_plain_password,
  zmq_zap_domain, zmq_handshake_ivl, zmq_invert_matching, zmq_heartbeat_ivl, zmq_heartbeat_ttl,
  zmq_heartbeat_timeout, zmq_sndhwm, zmq_rcvhwm, zmq_affinity, zmq_identity, zmq_rate,
  zmq_recovery_ivl, zmq_sndbuf, zmq_rcvbuf, zmq_tos, zmq_linger, zmq_connect_timeout, zmq_tcp_maxrt,
  zmq_reconnect_ivl, zmq_reconnect_ivl_max, zmq_backlog, zmq_maxmsgsize, zmq_multicast_hops,
  zmq_multicast_maxtpdu, zmq_rcvtimeo, zmq_sndtimeo, zmq_ipv4only, zmq_ipv6, zmq_tcp_keepalive,
  zmq_tcp_keepalive_cnt, zmq_tcp_keepalive_idle, zmq_tcp_keepalive_intvl, zmq_immediate,
}

-- `if (is_int) { *value = z; return 0; }`
unfoldable pub get_int : ℕ → ℤ → Option (List ℕ)
get_int len z = if len == 4 then some (store 4 (unsigned (2 ^ 31) z)) else none

-- A string and its terminating zero.
unfoldable pub get_string : ℕ → List ℕ → Option (List ℕ)
get_string len s = if leb (length s + 1) len then some (s ++ 0 ∷ []) else none

abbrev pub of_bool : Bool → ℤ
of_bool true = pos 1
of_bool false = pos 0

unfoldable pub get_basic : BasicKey → ℕ → Options → Option (List ℕ)
get_basic zmq_sndhwm len o = get_int len o.sndhwm
get_basic zmq_rcvhwm len o = get_int len o.rcvhwm
get_basic zmq_affinity len o = if len == 8 then some (store 8 o.affinity) else none
get_basic zmq_identity len o = if leb (length o.identity) len then some o.identity else none
get_basic zmq_rate len o = get_int len o.rate
get_basic zmq_recovery_ivl len o = get_int len o.recovery_ivl
get_basic zmq_sndbuf len o = get_int len o.sndbuf
get_basic zmq_rcvbuf len o = get_int len o.rcvbuf
get_basic zmq_tos len o = get_int len o.tos
get_basic zmq_linger len o = get_int len o.linger
get_basic zmq_connect_timeout len o = get_int len o.connect_timeout
get_basic zmq_tcp_maxrt len o = get_int len o.tcp_maxrt
get_basic zmq_reconnect_ivl len o = get_int len o.reconnect_ivl
get_basic zmq_reconnect_ivl_max len o = get_int len o.reconnect_ivl_max
get_basic zmq_backlog len o = get_int len o.backlog
get_basic zmq_maxmsgsize len o =
    if len == 8 then some (store 8 (unsigned (2 ^ 63) o.maxmsgsize)) else none
get_basic zmq_multicast_hops len o = get_int len o.multicast_hops
get_basic zmq_multicast_maxtpdu len o = get_int len o.multicast_maxtpdu
get_basic zmq_rcvtimeo len o = get_int len o.rcvtimeo
get_basic zmq_sndtimeo len o = get_int len o.sndtimeo

-- `1 - ipv6`
unfoldable pub one_minus : ℤ → ℤ
one_minus (pos zero) = pos 1
one_minus (pos (suc n)) = if n == 0 then pos 0 else negsuc (n - 1)
one_minus (negsuc n) = pos (n + 2)

-- `SOCKS_PROXY` is the last case here, and the fourth there.
unfoldable pub get_network : NetworkKey → ℕ → Options → Option (List ℕ)
get_network zmq_ipv4only len o = get_int len (one_minus o.ipv6)
get_network zmq_ipv6 len o = get_int len o.ipv6
get_network zmq_tcp_keepalive len o = get_int len o.tcp_keepalive
get_network zmq_tcp_keepalive_cnt len o = get_int len o.tcp_keepalive_cnt
get_network zmq_tcp_keepalive_idle len o = get_int len o.tcp_keepalive_idle
get_network zmq_tcp_keepalive_intvl len o = get_int len o.tcp_keepalive_intvl
get_network zmq_immediate len o = get_int len o.immediate
get_network zmq_socks_proxy len o = get_string len o.socks_proxy_address

unfoldable pub get_plain : PlainKey → ℕ → Options → Option (List ℕ)
get_plain zmq_plain_server len o =
    get_int len (of_bool (not (o.as_server =ℤ pos 0) && o.mechanism =ℤ zmq_plain))
get_plain zmq_plain_username len o = get_string len o.plain_username
get_plain zmq_plain_password len o = get_string len o.plain_password
get_plain zmq_zap_domain len o = get_string len o.zap_domain

unfoldable pub get_timing : TimingKey → ℕ → Options → Option (List ℕ)
get_timing zmq_handshake_ivl len o = get_int len o.handshake_ivl
get_timing zmq_invert_matching len o = get_int len (of_bool o.invert_matching)
get_timing zmq_heartbeat_ivl len o = get_int len o.heartbeat_interval
get_timing zmq_heartbeat_ttl len o = get_int len (pos (o.heartbeat_ttl * 100))
get_timing zmq_heartbeat_timeout len o = get_int len o.heartbeat_timeout

unfoldable pub getsockopt : Key → ℕ → Options → Option (List ℕ)
getsockopt (basic k) len o = get_basic k len o
getsockopt (network k) len o = get_network k len o
getsockopt (plain k) len o = get_plain k len o
getsockopt (timing k) len o = get_timing k len o
getsockopt zmq_conflate len o = get_int len (of_bool o.conflate)
getsockopt zmq_use_fd len o = get_int len o.use_fd
getsockopt zmq_type len o = get_int len o.type
getsockopt zmq_mechanism len o = get_int len o.mechanism
getsockopt zmq_other len o = none
