-- ===== src/Ring/Tests.antt =====
-- A list of three pipes, for the tests of those that keep one.
use zeromq.Prelude.{ℕ, ◌+◌, ◌<◌, arith, ◌==◌, if◌then◌else◌}
use zeromq.Array.{Array}
use zeromq.Ring.{Ring, IsValid}

-- The pipes 7, 8 and 9.
abbrev places : Array
places = record {
  size = 3;
  items = λ i. i + 7;
  array_index = λ p. if p == 7 then 0 else if p == 8 then 1 else 2;
}

abbrev pub three : ℕ → Ring
three c = record { pipes = places; active = 3; current = c }

pub three-IsValid : (c : ℕ) → c < 3 → IsValid (three c)
three-IsValid c h = record {
  indexed = record { at = λ i hi. grind arith };
  fits = omega arith;
  inside = omega arith;
}
