-- ===== src/Options/Tests.antt =====
-- The theorems on src/options.cpp at concrete options.
use zeromq.Prelude.{◌≡◌, true, refl, false, some, [], ◌∷◌, arith, All, IsByte, length}
use zeromq.Options.{network, Optval, new, value, load, signed, zmq_ipv4only, pos}
use zeromq.Options.Set.{setsockopt, set_network}
use zeromq.Options.Get.{getsockopt}
use zeromq.Options.Whole.{is_kept, getsockopt-setsockopt}

-- 1 as an `int`.
abbrev one : Optval
one = record { null = false; bytes = 1 ∷ 0 ∷ 0 ∷ 0 ∷ [] }

one-bytes : All IsByte one.bytes
one-bytes = (omega arith, (omega arith, (omega arith, (omega arith, tt))))

set_ipv4only : setsockopt (network zmq_ipv4only) one new ≡ some (record new { ipv6 = pos 0 })
unfolding setsockopt set_network value load signed
set_ipv4only = refl

ipv4only_kept : is_kept (network zmq_ipv4only) ≡ true
unfolding is_kept
ipv4only_kept = refl

getsockopt-setsockopt_example :
    getsockopt (network zmq_ipv4only) (length one.bytes) (record new { ipv6 = pos 0 })
    ≡ some one.bytes
getsockopt-setsockopt_example =
    getsockopt-setsockopt (network zmq_ipv4only) one new (record new { ipv6 = pos 0 }) ipv4only_kept
      one-bytes set_ipv4only
