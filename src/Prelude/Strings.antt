-- ===== src/Prelude/Strings.antt =====
-- Strings, as lists of the codes of their characters.
use Prim.Native.Nat.{ℕ}
use mathlib.Core.Path.{◌≡◌, refl}
use mathlib.Core.Bool.{Bool, true, false, ◌&&◌}
use mathlib.Core.List.{List, [], ◌∷◌, ◌++◌}
use zeromq.Prelude.Tests.{◌==◌, ==_refl, ==_iff, both_true}

abbrev pub equals : List ℕ → List ℕ → Bool
equals [] [] = true
equals [] (y ∷ ys) = false
equals (x ∷ xs) [] = false
equals (x ∷ xs) (y ∷ ys) = x == y && equals xs ys

-- `memcmp` of the beginning, after a test that it is there.
abbrev pub starts_with : List ℕ → List ℕ → Bool
starts_with [] ys = true
starts_with (x ∷ xs) [] = false
starts_with (x ∷ xs) (y ∷ ys) = x == y && starts_with xs ys

pub equals_refl : (xs : List ℕ) → equals xs xs ≡ true
equals_refl [] = refl
equals_refl (x ∷ xs) = rw (==_refl x, equals_refl xs) refl

pub equals_eq : (xs ys : List ℕ) → equals xs ys ≡ true → xs ≡ ys
equals_eq [] [] h = refl
equals_eq [] (y ∷ ys) h = absurd cc
equals_eq (x ∷ xs) [] h = absurd cc
equals_eq (x ∷ xs) (y ∷ ys) h =
    let (e, es) = both_true (x == y) (equals xs ys) h in
    let same : x ≡ y = (==_iff x y).0 e in let rest : xs ≡ ys = equals_eq xs ys es in cc

pub starts_with_append : (xs ys : List ℕ) → starts_with xs (xs ++ ys) ≡ true
starts_with_append [] ys = refl
starts_with_append (x ∷ xs) ys = rw (==_refl x, starts_with_append xs ys) refl
