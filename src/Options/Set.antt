-- ===== src/Options/Set.antt =====
-- `options_t::setsockopt`: what the options are after it. Where it fails they are not changed.
use zeromq.Prelude.{
  ℕ, ◌+◌, ◌-◌, ◌/◌, ◌^◌, Bool, not, Option, none, some, [], length, ltb, ◌==◌, ◌&&◌, ◌||◌,
  if◌then◌else◌,
}
use zeromq.Options.{
  ℤ, pos, negsuc, geq, ◌=ℤ◌, load, signed, Optval, is_int, value, at_least, is_bit, zmq_null,
  zmq_plain, Options, Key, basic, network, plain, timing, zmq_conflate, zmq_use_fd, zmq_type,
  zmq_mechanism, zmq_other, BasicKey, NetworkKey, PlainKey, TimingKey, zmq_socks_proxy,
  zmq_plain_server, zmq_plain_username, zmq_plain_password, zmq_zap_domain, zmq_handshake_ivl,
  zmq_invert_matching, zmq_heartbeat_ivl, zmq_heartbeat_ttl, zmq_heartbeat_timeout, zmq_sndhwm,
  zmq_rcvhwm, zmq_affinity, zmq_identity, zmq_rate, zmq_recovery_ivl, zmq_sndbuf, zmq_rcvbuf,
  zmq_tos, zmq_linger, zmq_connect_timeout, zmq_tcp_maxrt, zmq_reconnect_ivl, zmq_reconnect_ivl_max,
  zmq_backlog, zmq_maxmsgsize, zmq_multicast_hops, zmq_multicast_maxtpdu, zmq_rcvtimeo,
  zmq_sndtimeo, zmq_ipv4only, zmq_ipv6, zmq_tcp_keepalive, zmq_tcp_keepalive_cnt,
  zmq_tcp_keepalive_idle, zmq_tcp_keepalive_intvl, zmq_immediate,
}

unfoldable pub set_basic : BasicKey → Optval → Options → Option Options
set_basic zmq_sndhwm v o =
    if is_int v && at_least v (pos 0) then some (record o { sndhwm = value v }) else none
set_basic zmq_rcvhwm v o =
    if is_int v && at_least v (pos 0) then some (record o { rcvhwm = value v }) else none
set_basic zmq_affinity v o =
    if length v.bytes == 8 then some (record o { affinity = load v.bytes }) else none
set_basic zmq_identity v o =
    if ltb 0 (length v.bytes) && ltb (length v.bytes) 256
    then some (record o { identity = v.bytes })
    else none
set_basic zmq_rate v o =
    if is_int v && at_least v (pos 1) then some (record o { rate = value v }) else none
set_basic zmq_recovery_ivl v o =
    if is_int v && at_least v (pos 0) then some (record o { recovery_ivl = value v }) else none
set_basic zmq_sndbuf v o =
    if is_int v && at_least v (negsuc 0) then some (record o { sndbuf = value v }) else none
set_basic zmq_rcvbuf v o =
    if is_int v && at_least v (negsuc 0) then some (record o { rcvbuf = value v }) else none
set_basic zmq_tos v o =
    if is_int v && at_least v (pos 0) then some (record o { tos = value v }) else none
set_basic zmq_linger v o =
    if is_int v && at_least v (negsuc 0) then some (record o { linger = value v }) else none
set_basic zmq_connect_timeout v o =
    if is_int v && at_least v (pos 0) then some (record o { connect_timeout = value v }) else none
set_basic zmq_tcp_maxrt v o =
    if is_int v && at_least v (pos 0) then some (record o { tcp_maxrt = value v }) else none
set_basic zmq_reconnect_ivl v o =
    if is_int v && at_least v (negsuc 0) then some (record o { reconnect_ivl = value v }) else none
set_basic zmq_reconnect_ivl_max v o =
    if is_int v && at_least v (pos 0) then some (record o { reconnect_ivl_max = value v }) else none
set_basic zmq_backlog v o =
    if is_int v && at_least v (pos 0) then some (record o { backlog = value v }) else none
set_basic zmq_maxmsgsize v o =
    if length v.bytes == 8
    then some (record o { maxmsgsize = signed (2 ^ 63) (load v.bytes) })
    else none
set_basic zmq_multicast_hops v o =
    if is_int v && at_least v (pos 1) then some (record o { multicast_hops = value v }) else none
set_basic zmq_multicast_maxtpdu v o =
    if is_int v && at_least v (pos 1) then some (record o { multicast_maxtpdu = value v }) else none
set_basic zmq_rcvtimeo v o =
    if is_int v && at_least v (negsuc 0) then some (record o { rcvtimeo = value v }) else none
set_basic zmq_sndtimeo v o =
    if is_int v && at_least v (negsuc 0) then some (record o { sndtimeo = value v }) else none

-- `SOCKS_PROXY` is the last case here, and the fourth there.
unfoldable pub set_network : NetworkKey → Optval → Options → Option Options
set_network zmq_ipv4only v o =
    if is_int v && is_bit v
    then some (record o { ipv6 = if value v =ℤ pos 0 then pos 1 else pos 0 })
    else none
set_network zmq_ipv6 v o =
    if is_int v && is_bit v
    then some (record o { ipv6 = if value v =ℤ pos 0 then pos 0 else pos 1 })
    else none
set_network zmq_tcp_keepalive v o =
    if is_int v && (value v =ℤ negsuc 0 || is_bit v)
    then some (record o { tcp_keepalive = value v })
    else none
set_network zmq_tcp_keepalive_cnt v o =
    if is_int v && (value v =ℤ negsuc 0 || at_least v (pos 0))
    then some (record o { tcp_keepalive_cnt = value v })
    else none
set_network zmq_tcp_keepalive_idle v o =
    if is_int v && (value v =ℤ negsuc 0 || at_least v (pos 0))
    then some (record o { tcp_keepalive_idle = value v })
    else none
set_network zmq_tcp_keepalive_intvl v o =
    if is_int v && (value v =ℤ negsuc 0 || at_least v (pos 0))
    then some (record o { tcp_keepalive_intvl = value v })
    else none
set_network zmq_immediate v o =
    if is_int v && is_bit v then some (record o { immediate = value v }) else none
set_network zmq_socks_proxy v o =
    if v.null && length v.bytes == 0
    then some (record o { socks_proxy_address = [] })
    else if not v.null && ltb 0 (length v.bytes)
    then some (record o { socks_proxy_address = v.bytes })
    else none

-- `optvallen_ > 0 && optvallen_ < 256 && optval_ != NULL`
abbrev is_name : Optval → Bool
is_name v = ltb 0 (length v.bytes) && ltb (length v.bytes) 256 && not v.null

unfoldable pub set_plain : PlainKey → Optval → Options → Option Options
set_plain zmq_plain_server v o =
    if is_int v && is_bit v
    then some (record o {
      as_server = value v;
      mechanism = if value v =ℤ pos 0 then zmq_null else zmq_plain;
    })
    else none
set_plain zmq_plain_username v o =
    if length v.bytes == 0 && v.null
    then some (record o { mechanism = zmq_null })
    else if is_name v
    then some (record o { plain_username = v.bytes; as_server = pos 0; mechanism = zmq_plain })
    else none
set_plain zmq_plain_password v o =
    if length v.bytes == 0 && v.null
    then some (record o { mechanism = zmq_null })
    else if is_name v
    then some (record o { plain_password = v.bytes; as_server = pos 0; mechanism = zmq_plain })
    else none
set_plain zmq_zap_domain v o =
    if ltb (length v.bytes) 256 then some (record o { zap_domain = v.bytes }) else none

-- `value / 100`, rounded towards zero.
unfoldable pub hundredth : ℤ → ℤ
hundredth (pos n) = pos (n / 100)
hundredth (negsuc n) = if (n + 1) / 100 == 0 then pos 0 else negsuc ((n + 1) / 100 - 1)

-- The number of a value that is not negative.
abbrev to_uint16 : ℤ → ℕ
to_uint16 (pos n) = n
to_uint16 (negsuc n) = 0

unfoldable pub set_timing : TimingKey → Optval → Options → Option Options
set_timing zmq_handshake_ivl v o =
    if is_int v && at_least v (pos 0) then some (record o { handshake_ivl = value v }) else none
set_timing zmq_invert_matching v o =
    if is_int v then some (record o { invert_matching = not (value v =ℤ pos 0) }) else none
set_timing zmq_heartbeat_ivl v o =
    if is_int v && at_least v (pos 0)
    then some (record o { heartbeat_interval = value v })
    else none
set_timing zmq_heartbeat_ttl v o =
    let deciseconds = hundredth (value v) in
    if is_int v && geq deciseconds (pos 0) && geq (pos 6553) deciseconds
    then some (record o { heartbeat_ttl = to_uint16 deciseconds })
    else none
set_timing zmq_heartbeat_timeout v o =
    if is_int v && at_least v (pos 0) then some (record o { heartbeat_timeout = value v }) else none

unfoldable pub setsockopt : Key → Optval → Options → Option Options
setsockopt (basic k) v o = set_basic k v o
setsockopt (network k) v o = set_network k v o
setsockopt (plain k) v o = set_plain k v o
setsockopt (timing k) v o = set_timing k v o
setsockopt zmq_conflate v o =
    if is_int v && is_bit v then some (record o { conflate = not (value v =ℤ pos 0) }) else none
setsockopt zmq_use_fd v o =
    if is_int v && at_least v (negsuc 0) then some (record o { use_fd = value v }) else none
setsockopt zmq_type v o = none
setsockopt zmq_mechanism v o = none
setsockopt zmq_other v o = none
