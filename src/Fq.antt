-- ===== src/Fq.antt =====
-- src/fq.cpp: `fq_t`, which takes messages from its pipes in turn.
-- A pipe is a number, and the store has its `Ends`, so that its methods are those of Pipe. `none` is a
-- failed assertion.
pub mod Receive
pub mod Parts
mod Tests
use zeromq.Prelude.{
  ℕ, zero, suc, ◌+◌, ◌-◌, Bool, true, false, not, ◌&&◌, Option, none, some, List, [], ltb, ◌==◌,
  if◌then◌else◌, ◌>>=◌, require,
}
use zeromq.Msg.{Msg}
use zeromq.Pipe.{Ends}
use zeromq.Pipe.Read.{read, check_read}
use zeromq.Array.{Array, push_back, swap}
use zeromq.Ring
use zeromq.Ring.{Ring, new_ring, deactivate, remove, advance}
use zeromq.Ring.Visit.{Store, set}

pub record Fq : Type 0 where
  pub ring : Ring
  pub last_in : Option ℕ
  pub more : Bool
  pub saved_credential : List ℕ

abbrev pub new : Fq
new = record { ring = new_ring; last_in = none; more = false; saved_credential = [] }

unfoldable pub attach : ℕ → Fq → Fq
attach p f =
    let pipes = push_back p f.ring.pipes in
    let r : Ring = record f.ring {
      pipes = swap f.ring.active (pipes.size - 1) pipes;
      active = f.ring.active + 1;
    } in
    record f { ring = r }

unfoldable pub activated : ℕ → Fq → Fq
activated p f = record f { ring = Ring.activated p f.ring }

abbrev pub is_last_in : ℕ → Option ℕ → Bool
is_last_in p none = false
is_last_in p (some q) = q == p

unfoldable pub pipe_terminated : ℕ → Store → Fq → Fq
pipe_terminated p s f =
    let f' : Fq = record f { ring = remove p f.ring } in
    if is_last_in p f.last_in
    then record f' { saved_credential = (s p).pipe.credential; last_in = none }
    else f'

unfoldable pub get_credential : Store → Fq → List ℕ
get_credential s f = elim f.last_in [ none ↦ f.saved_credential | some p ↦ (s p).pipe.credential ]

-- What the loop of `recvpipe` ends with: the message and its pipe, if there is one.
pub record Fetched : Type 0 where
  pub got : Option (ℕ × Msg)
  pub ring : Ring
  pub store : Store

-- `while (active > 0)`, by recursion on `active`
unfoldable pub fetch : ℕ → Bool → Ring → Store → Option Fetched
fetch zero more r s = some (record { got = none; ring = r; store = s })
fetch (suc n) more r s =
    let p = r.pipes.items r.current in
    read (s p) >>= λ (x, e).
    (let s' = set p e s in
      let rest = fetch n more (deactivate r.current r) s' in
      elim x [
        | some m ↦ some (record { got = some (p, m); ring = r; store = s' })
        | none ↦ require (not more) rest
      ])

pub record Answer : Type 0 where
  pub got : Option (ℕ × Msg)
  pub fq : Fq
  pub store : Store

-- What follows a message that was fetched; `none` is EAGAIN.
abbrev pub finish : Fq → Fetched → Answer
finish f a = elim a.got [
  | none ↦ record { got = none; fq = record f { ring = a.ring }; store = a.store }
  | some (p, m) ↦
      if m.more
      then record {
        got = some (p, m);
        fq = record f { ring = a.ring; more = true };
        store = a.store;
      }
      else record {
        got = some (p, m);
        fq = record f { ring = advance a.ring; more = false; last_in = some p };
        store = a.store;
      }
]

unfoldable pub recvpipe : Fq → Store → Option Answer
unfolding fetch
recvpipe f s = fetch f.ring.active f.more f.ring s >>= λ a. some (finish f a)

-- `while (active > 0)` of `has_in`
unfoldable pub first_with_message : ℕ → Ring → Store → Option (Bool × Ring × Store)
first_with_message zero r s = some (false, r, s)
first_with_message (suc n) r s =
    let p = r.pipes.items r.current in
    check_read (s p) >>= λ (there, e).
    (let s' = set p e s in
      let rest = first_with_message n (deactivate r.current r) s' in
      if there then some (true, r, s') else rest)

unfoldable pub has_in : Fq → Store → Option (Bool × Fq × Store)
unfolding first_with_message
has_in f s =
    let found = first_with_message f.ring.active f.ring s in
    if f.more
    then some (true, f, s)
    else (found >>= λ (there, r, s'). some (there, record f { ring = r }, s'))
