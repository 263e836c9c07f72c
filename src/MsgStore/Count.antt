-- ===== src/MsgStore/Count.antt =====
-- How many messages point to a content.
use zeromq.Prelude.{
  refl, ◌≢◌, ap, ℕ, zero, suc, ◌+◌, ◌≤◌, ◌<◌, ◌≡◌, List, [], ◌∷◌, length, get_or, set, ◌==◌, arith,
  if◌then◌else◌,
}
use zeromq.MsgStore.{Body, lmsg, zclmsg, Message, no_message}

-- 1 if the message points to the content.
abbrev pub points : ℕ → Body → ℕ
points p b = elim b [
  | lmsg q ↦ if q == p then 1 else 0
  | zclmsg q ↦ if q == p then 1 else 0
  | _ ↦ 0
]

abbrev pub count : ℕ → List Message → ℕ
count p [] = 0
count p (m ∷ ms) = points p m.type + count p ms

pub count-set :
    (p i : ℕ) (m : Message) (ms : List Message)
    → i < length ms
    → count p (set ms i m) + points p (get_or ms i no_message).type ≡ count p ms + points p m.type
count-set p i m [] h = absurd (omega arith)
count-set p zero m (x ∷ ms) h = omega arith
count-set p (suc i) m (x ∷ ms) h = let k = count-set p i m ms (omega arith) in omega arith

points-le : (p : ℕ) (b : Body) → points p b ≤ 1
points-le p b = elim b as (λ x. points p x ≤ 1) [
  | lmsg q ↦ ground arith
  | zclmsg q ↦ ground arith
  | _ ↦ omega arith
]

pub count-le : (p : ℕ) (ms : List Message) → count p ms ≤ length ms
count-le p [] = omega arith
count-le p (m ∷ ms) = let k = count-le p ms in let l = points-le p m.type in omega arith

pub points-count :
    (p i : ℕ) (ms : List Message) → points p (get_or ms i no_message).type ≤ count p ms
points-count p i [] = omega arith
points-count p zero (m ∷ ms) = omega arith
points-count p (suc i) (m ∷ ms) = let k = points-count p i ms in omega arith

-- Two messages that point to a content are two.
pub two_point :
    (p j k : ℕ) (ms : List Message)
    → j < length ms
    → k ≢ j
    → points p (get_or ms j no_message).type ≡ 1
    → points p (get_or ms k no_message).type ≡ 1
    → 2 ≤ count p ms
two_point p j k [] h n e f = absurd (omega arith)
two_point p zero zero (m ∷ ms) h n e f = absurd (n refl)
two_point p zero (suc k) (m ∷ ms) h n e f = omega (arith, points-count p k ms, e, f)
two_point p (suc j) zero (m ∷ ms) h n e f = omega (arith, points-count p j ms, e, f)
two_point p (suc j) (suc k) (m ∷ ms) h n e f =
    let l = two_point p j k ms (omega arith) (λ x. n (ap suc x)) e f in omega arith

pub points_itself : (q : ℕ) → points q (lmsg q) ≡ 1
points_itself q = ground arith
