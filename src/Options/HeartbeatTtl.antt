-- ===== src/Options/HeartbeatTtl.antt =====
-- The option HEARTBEAT_TTL, in milliseconds outside and in tenths of a second inside.
use zeromq.Prelude.{ℕ, ◌+◌, ◌*◌, ◌/◌, ◌<◌, ◌≤◌, ◌≡◌, refl, true, some, arith, ◌==◌, leb}
use zeromq.Options.{pos, negsuc, store, Optval, is_int, value, Options, zmq_heartbeat_ttl}
use zeromq.Options.Set.{set_timing, hundredth}
use zeromq.Options.Get.{get_timing, get_int}
use zeromq.Options.{unsigned}

-- A time of up to 655399 milliseconds is accepted and comes back rounded down to a tenth of a second.
heartbeat_ttl_rounds :
    (v : Optval) (o : Options) (n : ℕ)
    → is_int v ≡ true
    → value v ≡ pos n
    → n ≤ 655399
    → (o' : Options) × (set_timing zmq_heartbeat_ttl v o ≡ some o')
      × (get_timing zmq_heartbeat_ttl 4 o' ≡ some (store 4 (n / 100 * 100)))
unfolding set_timing hundredth get_timing get_int unsigned
heartbeat_ttl_rounds v o n int e h =
    let ge : leb 0 (n / 100) ≡ true = ground arith in
    let le : leb (n / 100) 6553 ≡ true = ground arith in
    (record o { heartbeat_ttl = n / 100 }, rw (e, int, ge, le) refl, refl)

-- A time from -99 to -1 milliseconds is accepted too, and sets the time to zero.
set_timing_negative :
    (v : Optval) (o : Options) (n : ℕ)
    → is_int v ≡ true
    → value v ≡ negsuc n
    → n < 99
    → set_timing zmq_heartbeat_ttl v o ≡ some (record o { heartbeat_ttl = 0 })
unfolding set_timing hundredth
set_timing_negative v o n int e h =
    let z : ((n + 1) / 100 == 0) ≡ true = ground arith in rw (e, int, z) refl
