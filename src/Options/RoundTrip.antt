-- ===== src/Options/RoundTrip.antt =====
-- What `setsockopt` accepts, `getsockopt` gives back.
use zeromq.Prelude.{
  ℕ, zero, suc, ◌+◌, ◌*◌, ◌/◌, ◌%◌, ◌^◌, ◌<◌, ◌≡◌, ◌≢◌, refl, ap, ◌∙◌, sym, inl, inr, Bool, true,
  false, none, some, List, [], ◌∷◌, arith, length, ltb, leb, ◌==◌, ◌&&◌, ◌||◌, if◌then◌else◌,
  Bool-cases, All, IsByte,
}
use zeromq.Options.{
  ℤ, pos, negsuc, ◌=ℤ◌, load, store, signed, unsigned, Optval, is_int, value, at_least, is_bit,
  Options, BasicKey, NetworkKey, zmq_socks_proxy, zmq_sndhwm, zmq_rcvhwm, zmq_affinity,
  zmq_identity, zmq_rate, zmq_recovery_ivl, zmq_sndbuf, zmq_rcvbuf, zmq_tos, zmq_linger,
  zmq_connect_timeout, zmq_tcp_maxrt, zmq_reconnect_ivl, zmq_reconnect_ivl_max, zmq_backlog,
  zmq_maxmsgsize, zmq_multicast_hops, zmq_multicast_maxtpdu, zmq_rcvtimeo, zmq_sndtimeo,
  zmq_ipv4only, zmq_ipv6, zmq_tcp_keepalive, zmq_tcp_keepalive_cnt, zmq_tcp_keepalive_idle,
  zmq_tcp_keepalive_intvl, zmq_immediate,
}
use zeromq.Options.Set.{set_basic, set_network}
use zeromq.Options.Get.{get_int, get_basic, get_network, one_minus}

pub store-load : (bs : List ℕ) → All IsByte bs → store (length bs) (load bs) ≡ bs
unfolding store load
store-load [] h = refl
store-load (b ∷ bs) h =
    let low : (b + 256 * load bs) % 256 ≡ b = omega (arith, h.0) in
    let high : (b + 256 * load bs) / 256 ≡ load bs = omega (arith, h.0) in
    rw (low, high, store-load bs h.1) refl

unsigned-signed : (half n : ℕ) → n < 2 * half → unsigned half (signed half n) ≡ n
unfolding unsigned signed
unsigned-signed half n h = elim (Bool-cases (ltb n half)) [
  | inl e ↦ rw e refl
  | inr e ↦ rw e (omega arith)
]

load_int : (bs : List ℕ) → length bs ≡ 4 → All IsByte bs → load bs < 2 * 2 ^ 31
unfolding load
load_int [] e h = absurd (omega arith)
load_int (a ∷ []) e h = absurd (omega arith)
load_int (a ∷ b ∷ []) e h = absurd (omega arith)
load_int (a ∷ b ∷ c ∷ []) e h = absurd (omega arith)
load_int (a ∷ b ∷ c ∷ d ∷ []) e (ha, (hb, (hc, (hd, _)))) = omega arith
load_int (a ∷ b ∷ c ∷ d ∷ x ∷ r) e h = absurd (omega arith)

load_int64 : (bs : List ℕ) → length bs ≡ 8 → All IsByte bs → load bs < 2 * 2 ^ 63
unfolding load
load_int64 [] e h = absurd (omega arith)
load_int64 (a ∷ []) e h = absurd (omega arith)
load_int64 (a ∷ b ∷ []) e h = absurd (omega arith)
load_int64 (a ∷ b ∷ c ∷ []) e h = absurd (omega arith)
load_int64 (a ∷ b ∷ c ∷ d ∷ bs) e (ha, (hb, (hc, (hd, h)))) =
    omega (arith, load_int bs (omega arith) h)

-- An assignment under a condition that held.
pub accepted :
    (t : Bool) (x y : Options) → (if t then some x else none) ≡ some y → (t ≡ true) × (x ≡ y)
accepted true x y e = (refl, cc)
accepted false x y e = absurd cc

-- The bytes of an `int` that the options have are those that were handed over.
pub int_bytes :
    (v : Optval) (z : ℤ)
    → All IsByte v.bytes
    → is_int v ≡ true
    → z ≡ value v
    → get_int (length v.bytes) z ≡ some v.bytes
unfolding get_int value
int_bytes v z h e same =
    let four : length v.bytes ≡ 4 = ground arith in
    rw (same, e)
      (ap some (
        ap (store 4) (unsigned-signed (2 ^ 31) (load v.bytes) (load_int v.bytes four h))
        ∙ ap (λ n. store n (load v.bytes)) (sym four)
        ∙ store-load v.bytes h))

-- The same after an assignment of the value under a condition.
pub assigned :
    (t : Bool) (v : Optval) (x y : Options) (field : Options → ℤ)
    → All IsByte v.bytes
    → (if is_int v && t then some x else none) ≡ some y
    → field x ≡ value v
    → get_int (length v.bytes) (field y) ≡ some v.bytes
assigned t v x y field h e same =
    let (both, eq) = accepted (is_int v && t) x y e in
    int_bytes v (field y) h (ground (arith, both)) (ap field (sym eq) ∙ same)

-- What `setsockopt` accepts for an option of the first group, the numbers, the affinity, the identity and
-- the largest message size, `getsockopt` gives back, byte for byte, to a buffer of the same size.
pub get_basic-set_basic :
    (k : BasicKey) (v : Optval) (o o' : Options)
    → All IsByte v.bytes
    → set_basic k v o ≡ some o'
    → get_basic k (length v.bytes) o' ≡ some v.bytes
unfolding set_basic get_basic
get_basic-set_basic zmq_sndhwm v o o' h e =
    assigned (at_least v (pos 0)) v (record o { sndhwm = value v }) o' (λ x. x.sndhwm) h e refl
get_basic-set_basic zmq_rcvhwm v o o' h e =
    assigned (at_least v (pos 0)) v (record o { rcvhwm = value v }) o' (λ x. x.rcvhwm) h e refl
get_basic-set_basic zmq_affinity v o o' h e =
    let (eight, eq) = accepted (length v.bytes == 8) (record o { affinity = load v.bytes }) o' e in
    let eight' : length v.bytes ≡ 8 = ground arith in
    rw eight (
      ap some (
        ap (store 8) (ap (λ (x : Options). x.affinity) (sym eq))
        ∙ ap (λ n. store n (load v.bytes)) (sym eight')
        ∙ store-load v.bytes h))
get_basic-set_basic zmq_identity v o o' h e =
    let (_, eq) =
      accepted (ltb 0 (length v.bytes) && ltb (length v.bytes) 256)
        (record o { identity = v.bytes }) o' e in
    let same : o'.identity ≡ v.bytes = ap (λ (x : Options). x.identity) (sym eq) in
    let fits : leb (length v.bytes) (length v.bytes) ≡ true = ground arith in rw (same, fits) refl
get_basic-set_basic zmq_rate v o o' h e =
    assigned (at_least v (pos 1)) v (record o { rate = value v }) o' (λ x. x.rate) h e refl
get_basic-set_basic zmq_recovery_ivl v o o' h e =
    assigned (at_least v (pos 0)) v (record o { recovery_ivl = value v }) o' (λ x. x.recovery_ivl) h
      e refl
get_basic-set_basic zmq_sndbuf v o o' h e =
    assigned (at_least v (negsuc 0)) v (record o { sndbuf = value v }) o' (λ x. x.sndbuf) h e refl
get_basic-set_basic zmq_rcvbuf v o o' h e =
    assigned (at_least v (negsuc 0)) v (record o { rcvbuf = value v }) o' (λ x. x.rcvbuf) h e refl
get_basic-set_basic zmq_tos v o o' h e =
    assigned (at_least v (pos 0)) v (record o { tos = value v }) o' (λ x. x.tos) h e refl
get_basic-set_basic zmq_linger v o o' h e =
    assigned (at_least v (negsuc 0)) v (record o { linger = value v }) o' (λ x. x.linger) h e refl
get_basic-set_basic zmq_connect_timeout v o o' h e =
    assigned (at_least v (pos 0)) v (record o { connect_timeout = value v }) o'
      (λ x. x.connect_timeout) h e refl
get_basic-set_basic zmq_tcp_maxrt v o o' h e =
    assigned (at_least v (pos 0)) v (record o { tcp_maxrt = value v }) o' (λ x. x.tcp_maxrt) h e
      refl
get_basic-set_basic zmq_reconnect_ivl v o o' h e =
    assigned (at_least v (negsuc 0)) v (record o { reconnect_ivl = value v }) o'
      (λ x. x.reconnect_ivl) h e refl
get_basic-set_basic zmq_reconnect_ivl_max v o o' h e =
    assigned (at_least v (pos 0)) v (record o { reconnect_ivl_max = value v }) o'
      (λ x. x.reconnect_ivl_max) h e refl
get_basic-set_basic zmq_backlog v o o' h e =
    assigned (at_least v (pos 0)) v (record o { backlog = value v }) o' (λ x. x.backlog) h e refl
get_basic-set_basic zmq_maxmsgsize v o o' h e =
    let (eight, eq) =
      accepted (length v.bytes == 8) (record o { maxmsgsize = signed (2 ^ 63) (load v.bytes) }) o'
        e in
    let eight' : length v.bytes ≡ 8 = ground arith in
    rw eight (
      ap some (
        ap (λ (x : Options). store 8 (unsigned (2 ^ 63) x.maxmsgsize)) (sym eq)
        ∙ ap (store 8) (unsigned-signed (2 ^ 63) (load v.bytes) (load_int64 v.bytes eight' h))
        ∙ ap (λ n. store n (load v.bytes)) (sym eight')
        ∙ store-load v.bytes h))
get_basic-set_basic zmq_multicast_hops v o o' h e =
    assigned (at_least v (pos 1)) v (record o { multicast_hops = value v }) o'
      (λ x. x.multicast_hops) h e refl
get_basic-set_basic zmq_multicast_maxtpdu v o o' h e =
    assigned (at_least v (pos 1)) v (record o { multicast_maxtpdu = value v }) o'
      (λ x. x.multicast_maxtpdu) h e refl
get_basic-set_basic zmq_rcvtimeo v o o' h e =
    assigned (at_least v (negsuc 0)) v (record o { rcvtimeo = value v }) o' (λ x. x.rcvtimeo) h e
      refl
get_basic-set_basic zmq_sndtimeo v o o' h e =
    assigned (at_least v (negsuc 0)) v (record o { sndtimeo = value v }) o' (λ x. x.sndtimeo) h e
      refl

-- A bit that is stored, inverted or not, and read back.
bit_kept :
    (z : ℤ)
    → (z =ℤ pos 0 || z =ℤ pos 1) ≡ true
    → (one_minus (if z =ℤ pos 0 then pos 1 else pos 0) ≡ z)
      × ((if z =ℤ pos 0 then pos 0 else pos 1) ≡ z)
unfolding one_minus
bit_kept (pos zero) h = (refl, refl)
bit_kept (pos (suc zero)) h = (refl, refl)
bit_kept (pos (suc (suc n))) h = absurd (ground arith)
bit_kept (negsuc n) h = absurd (ground arith)

-- What `setsockopt` accepts for IPV4ONLY, IPV6, IMMEDIATE and the keep-alive options, `getsockopt` gives
-- back, byte for byte, to a buffer of the same size.
pub get_network-set_network :
    (k : NetworkKey) (v : Optval) (o o' : Options)
    → k ≢ zmq_socks_proxy
    → All IsByte v.bytes
    → set_network k v o ≡ some o'
    → get_network k (length v.bytes) o' ≡ some v.bytes
unfolding set_network get_network
get_network-set_network zmq_ipv4only v o o' ne h e =
    let (both, eq) =
      accepted (is_int v && is_bit v)
        (record o { ipv6 = if value v =ℤ pos 0 then pos 1 else pos 0 }) o' e in
    int_bytes v (one_minus o'.ipv6) h (ground (arith, both)) (
      ap (λ (x : Options). one_minus x.ipv6) (sym eq)
      ∙ (bit_kept (value v) (ground (arith, both))).0)
get_network-set_network zmq_ipv6 v o o' ne h e =
    let (both, eq) =
      accepted (is_int v && is_bit v)
        (record o { ipv6 = if value v =ℤ pos 0 then pos 0 else pos 1 }) o' e in
    int_bytes v (o'.ipv6) h (ground (arith, both))
      (ap (λ (x : Options). x.ipv6) (sym eq) ∙ (bit_kept (value v) (ground (arith, both))).1)
get_network-set_network zmq_tcp_keepalive v o o' ne h e =
    assigned ((value v =ℤ negsuc 0 || is_bit v)) v (record o { tcp_keepalive = value v }) o'
      (λ x. x.tcp_keepalive) h e refl
get_network-set_network zmq_tcp_keepalive_cnt v o o' ne h e =
    assigned ((value v =ℤ negsuc 0 || at_least v (pos 0))) v
      (record o { tcp_keepalive_cnt = value v }) o' (λ x. x.tcp_keepalive_cnt) h e refl
get_network-set_network zmq_tcp_keepalive_idle v o o' ne h e =
    assigned ((value v =ℤ negsuc 0 || at_least v (pos 0))) v
      (record o { tcp_keepalive_idle = value v }) o' (λ x. x.tcp_keepalive_idle) h e refl
get_network-set_network zmq_tcp_keepalive_intvl v o o' ne h e =
    assigned ((value v =ℤ negsuc 0 || at_least v (pos 0))) v
      (record o { tcp_keepalive_intvl = value v }) o' (λ x. x.tcp_keepalive_intvl) h e refl
get_network-set_network zmq_immediate v o o' ne h e =
    assigned (is_bit v) v (record o { immediate = value v }) o' (λ x. x.immediate) h e refl
get_network-set_network zmq_socks_proxy v o o' ne h e = absurd (ne refl)
