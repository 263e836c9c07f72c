-- ===== src/Lb.antt =====
-- src/lb.cpp: `lb_t`, which sends each message to the next pipe that takes it.
-- A pipe is a number, and the store has its `Ends`, so that its methods are those of Pipe. `none` is a
-- failed assertion in `rollback`.
pub mod Send
pub mod Parts
mod Tests
use zeromq.Prelude.{
  ℕ, zero, suc, ◌+◌, ◌-◌, Bool, true, false, not, ◌&&◌, Option, none, some, ltb, ◌==◌,
  if◌then◌else◌, ◌>>=◌,
}
use zeromq.Msg.{Msg}
use zeromq.Pipe.{Ends}
use zeromq.Pipe.Write
use zeromq.Pipe.Write.{check_write, rollback, flush}
use zeromq.Array.{Array, push_back, swap}
use zeromq.Ring
use zeromq.Ring.{Ring, new_ring, deactivate, remove, advance, pass_over}
use zeromq.Ring.Visit.{Store, set}

pub record Lb : Type 0 where
  pub ring : Ring
  pub more : Bool
  pub dropping : Bool

abbrev pub new : Lb
new = record { ring = new_ring; more = false; dropping = false }

unfoldable pub activated : ℕ → Lb → Lb
activated p b = record b { ring = Ring.activated p b.ring }

unfoldable pub attach : ℕ → Lb → Lb
unfolding activated
attach p b =
    let r : Ring = record b.ring { pipes = push_back p b.ring.pipes } in
    activated p (record b { ring = r })

unfoldable pub pipe_terminated : ℕ → Lb → Lb
pipe_terminated p b =
    let drops = b.ring.pipes.array_index p == b.ring.current && b.more in
    record b { ring = remove p b.ring; dropping = if drops then true else b.dropping }

-- Where a part of a message went: to the pipe, nowhere with EAGAIN, or it was dropped.
pub data Result : Type 0 where
  sent : ℕ → Result
  again dropped : Result

pub record Answer : Type 0 where
  pub result : Result
  pub lb : Lb
  pub store : Store

-- What the loop of `sendpipe` ends with.
pub data Outcome : Type 0 where
  taken : ℕ → Outcome
  refused nobody : Outcome

pub record Attempt : Type 0 where
  pub outcome : Outcome
  pub ring : Ring
  pub store : Store

-- `while (active > 0)`, by recursion on `active`
unfoldable pub attempt : ℕ → Msg → Bool → Ring → Store → Option Attempt
attempt zero m more r s = some (record { outcome = nobody; ring = r; store = s })
attempt (suc n) m more r s =
    let p = r.pipes.items r.current in
    let (ok, e) = Write.write m (s p) in
    let s' = set p e s in
    let rest = attempt n m more (pass_over r) s' in
    if ok
    then some (record { outcome = taken p; ring = r; store = s' })
    else if more
    then (rollback e >>= λ e'. some (record { outcome = refused; ring = r; store = set p e' s }))
    else rest

-- The end of `sendpipe`.
abbrev pub finish : Msg → Lb → Attempt → Answer
finish m b a = elim a.outcome [
  | taken p ↦
      if m.more
      then record { result = sent p; lb = record b { ring = a.ring; more = true }; store = a.store }
      else record {
        result = sent p;
        lb = record b { ring = advance a.ring; more = false };
        store = set p (flush (a.store p)) a.store;
      }
  | refused ↦ record {
    result = again;
    lb = record b { ring = a.ring; more = false };
    store = a.store;
  }
  | nobody ↦ record { result = again; lb = record b { ring = a.ring }; store = a.store }
]

unfoldable pub sendpipe : Msg → Lb → Store → Option Answer
unfolding attempt
sendpipe m b s =
    let drop : Lb = record b { more = m.more; dropping = m.more } in
    let tried = attempt b.ring.active m b.more b.ring s in
    if b.dropping
    then some (record { result = dropped; lb = drop; store = s })
    else (tried >>= λ a. some (finish m b a))

-- `while (active > 0)` of `has_out`
unfoldable pub first_with_room : ℕ → Ring → Store → Bool × Ring × Store
first_with_room zero r s = (false, r, s)
first_with_room (suc n) r s =
    let p = r.pipes.items r.current in
    let (room, e) = check_write (s p) in
    let s' = set p e s in
    let rest = first_with_room n (deactivate r.current r) s' in if room then (true, r, s') else rest

unfoldable pub has_out : Lb → Store → Bool × Lb × Store
unfolding first_with_room
has_out b s =
    let (room, r, s') = first_with_room b.ring.active b.ring s in
    if b.more then (true, b, s) else (room, record b { ring = r }, s')
