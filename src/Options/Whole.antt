-- ===== src/Options/Whole.antt =====
-- `setsockopt` and then `getsockopt` of the same option.
use zeromq.Prelude.{
  suc, zero, ◌≡◌, ◌≢◌, refl, sym, ap, ◌∙◌, Bool, true, false, not, some, All, IsByte, length, arith,
  ◌&&◌, ◌||◌,
}
use zeromq.Options.{
  ℤ, pos, negsuc, ◌=ℤ◌, Optval, is_int, value, at_least, is_bit, Options, Key, basic, network,
  plain, timing, NetworkKey, zmq_socks_proxy, zmq_conflate, zmq_use_fd, zmq_type, zmq_mechanism,
  zmq_other,
}
use zeromq.Options.Set.{setsockopt}
use zeromq.Options.Get.{getsockopt, of_bool}
use zeromq.Options.RoundTrip.{
  accepted, int_bytes, assigned, get_basic-set_basic, get_network-set_network,
}

-- The options whose value is given back as it was: not the types, SOCKS_PROXY, those of PLAIN, and those of
-- times of a handshake and a heartbeat, and INVERT_MATCHING.
unfoldable pub is_kept : Key → Bool
is_kept (basic k) = true
is_kept (network k) = elim k [ zmq_socks_proxy ↦ false | _ ↦ true ]
is_kept (plain k) = false
is_kept (timing k) = false
is_kept zmq_conflate = true
is_kept zmq_use_fd = true
is_kept zmq_type = false
is_kept zmq_mechanism = false
is_kept zmq_other = false

not_proxy : (k : NetworkKey) → is_kept (network k) ≡ true → k ≢ zmq_socks_proxy
unfolding is_kept
not_proxy k e same = absurd (let f = ap (λ x. is_kept (network x)) same in cc)

of_bool_bit : (z : ℤ) → (z =ℤ pos 0 || z =ℤ pos 1) ≡ true → of_bool (not (z =ℤ pos 0)) ≡ z
of_bool_bit (pos zero) h = refl
of_bool_bit (pos (suc zero)) h = refl
of_bool_bit (pos (suc (suc n))) h = absurd (ground arith)
of_bool_bit (negsuc n) h = absurd (ground arith)

-- What `setsockopt` accepts for one of these options, `getsockopt` gives back, byte for byte, to a buffer of the
-- same size: SNDHWM, RCVHWM, AFFINITY, IDENTITY, RATE, RECOVERY_IVL, SNDBUF, RCVBUF, TOS, LINGER,
-- CONNECT_TIMEOUT, TCP_MAXRT, RECONNECT_IVL, RECONNECT_IVL_MAX, BACKLOG, MAXMSGSIZE, MULTICAST_HOPS,
-- MULTICAST_MAXTPDU, RCVTIMEO, SNDTIMEO, IPV4ONLY, IPV6, the four TCP_KEEPALIVE options, IMMEDIATE, CONFLATE and
-- USE_FD.
pub getsockopt-setsockopt :
    (k : Key) (v : Optval) (o o' : Options)
    → is_kept k ≡ true
    → All IsByte v.bytes
    → setsockopt k v o ≡ some o'
    → getsockopt k (length v.bytes) o' ≡ some v.bytes
unfolding is_kept setsockopt getsockopt
getsockopt-setsockopt (basic k) v o o' kept h e = get_basic-set_basic k v o o' h e
getsockopt-setsockopt (network k) v o o' kept h e =
    get_network-set_network k v o o' (not_proxy k kept) h e
getsockopt-setsockopt (plain k) v o o' kept h e = absurd cc
getsockopt-setsockopt (timing k) v o o' kept h e = absurd cc
getsockopt-setsockopt zmq_conflate v o o' kept h e =
    let (both, eq) =
      accepted (is_int v && is_bit v) (record o { conflate = not (value v =ℤ pos 0) }) o' e in
    int_bytes v (of_bool o'.conflate) h (ground (arith, both)) (
      ap (λ (x : Options). of_bool x.conflate) (sym eq)
      ∙ of_bool_bit (value v) (ground (arith, both)))
getsockopt-setsockopt zmq_use_fd v o o' kept h e =
    assigned (at_least v (negsuc 0)) v (record o { use_fd = value v }) o' (λ x. x.use_fd) h e refl
getsockopt-setsockopt zmq_type v o o' kept h e = absurd cc
getsockopt-setsockopt zmq_mechanism v o o' kept h e = absurd cc
getsockopt-setsockopt zmq_other v o o' kept h e = absurd cc
