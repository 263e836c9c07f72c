-- ===== src/Dist.antt =====
-- src/dist.cpp: `dist_t`, which gives each message to all pipes or to those that match.
-- The first `matching` pipes get the message, the first `active` ones are at the start of a message or have
-- all parts of this one, the first `eligible` ones can be written to. A pipe is a number, and the store has
-- its `Ends`. The references to the data of a message are not counted: each pipe gets the message.
pub mod Groups
pub mod Spread
pub mod Leave
pub mod Reachable
mod Tests
use zeromq.Prelude.{ℕ, zero, suc, ◌+◌, ◌-◌, Bool, true, false, not, ◌&&◌, ltb, if◌then◌else◌}
use zeromq.Msg.{Msg}
use zeromq.Pipe
use zeromq.Pipe.{Ends}
use zeromq.Pipe.Write
use zeromq.Pipe.Write.{flush}
use zeromq.Array.{Array, empty_array, push_back, swap, erase}
use zeromq.Ring.Visit.{Store, set}

pub record Dist : Type 0 where
  pub pipes : Array
  pub matching : ℕ
  pub active : ℕ
  pub eligible : ℕ
  pub more : Bool

abbrev pub new : Dist
new = record { pipes = empty_array; matching = 0; active = 0; eligible = 0; more = false }

unfoldable pub attach : ℕ → Dist → Dist
attach p d =
    let a = push_back p d.pipes in
    if d.more
    then record d { pipes = swap d.eligible (a.size - 1) a; eligible = d.eligible + 1 }
    else record d {
      pipes = swap d.active (a.size - 1) a;
      active = d.active + 1;
      eligible = d.eligible + 1;
    }

unfoldable pub match : ℕ → Dist → Dist
match p d =
    let index = d.pipes.array_index p in
    if ltb index d.matching
    then d
    else if ltb index d.eligible
    then record d { pipes = swap index d.matching d.pipes; matching = d.matching + 1 }
    else d

-- The loop of `reverse_match`, for `n` values of `i`.
unfoldable pub reverse : ℕ → ℕ → Dist → Dist
reverse zero i d = d
reverse (suc n) i d =
    reverse n (i + 1) (record d { pipes = swap i d.matching d.pipes; matching = d.matching + 1 })

unfoldable pub reverse_match : Dist → Dist
unfolding reverse
reverse_match d = reverse (d.eligible - d.matching) d.matching (record d { matching = 0 })

abbrev pub unmatch : Dist → Dist
unmatch d = record d { matching = 0 }

-- `pipe_terminated`, one step for each group that the pipe is in.
abbrev pub leave_matching : ℕ → Dist → Dist
leave_matching p d =
    let index = d.pipes.array_index p in
    if ltb index d.matching
    then record d { pipes = swap index (d.matching - 1) d.pipes; matching = d.matching - 1 }
    else d

abbrev pub leave_active : ℕ → Dist → Dist
leave_active p d =
    let index = d.pipes.array_index p in
    if ltb index d.active
    then record d { pipes = swap index (d.active - 1) d.pipes; active = d.active - 1 }
    else d

abbrev pub leave_eligible : ℕ → Dist → Dist
leave_eligible p d =
    let index = d.pipes.array_index p in
    if ltb index d.eligible
    then record d { pipes = swap index (d.eligible - 1) d.pipes; eligible = d.eligible - 1 }
    else d

unfoldable pub pipe_terminated : ℕ → Dist → Dist
pipe_terminated p d =
    let d' = leave_eligible p (leave_active p (leave_matching p d)) in
    record d' { pipes = erase p d'.pipes }

abbrev pub make_eligible : ℕ → Dist → Dist
make_eligible p d =
    if ltb d.eligible d.pipes.size
    then record d {
      pipes = swap (d.pipes.array_index p) d.eligible d.pipes;
      eligible = d.eligible + 1;
    }
    else d

unfoldable pub activated : ℕ → Dist → Dist
activated p d =
    let d' = make_eligible p d in
    if not d'.more && ltb d'.active d'.pipes.size
    then record d' { pipes = swap (d'.eligible - 1) d'.active d'.pipes; active = d'.active + 1 }
    else d'

-- What `write` does with a pipe that refuses the message.
unfoldable pub drop_out : ℕ → Dist → Dist
drop_out p d =
    let a = swap (d.pipes.array_index p) (d.matching - 1) d.pipes in
    let b = swap (a.array_index p) (d.active - 1) a in
    record d {
      pipes = swap (d.active - 1) (d.eligible - 1) b;
      matching = d.matching - 1;
      active = d.active - 1;
      eligible = d.eligible - 1;
    }

unfoldable pub write : ℕ → Msg → Dist → Store → Bool × Dist × Store
unfolding drop_out
write p m d s =
    let (ok, e) = Write.write m (s p) in
    if ok
    then (true, d, set p (if m.more then e else flush e) s)
    else (false, drop_out p d, set p e s)

-- The loop of `distribute`, with `matching - i` as its measure: the place of a pipe that fails is tried
-- again with the pipe that is there then.
unfoldable pub spread : ℕ → ℕ → Msg → Dist → Store → Dist × Store
unfolding write
spread zero i m d s = (d, s)
spread (suc n) i m d s =
    let (ok, d', s') = write (d.pipes.items i) m d s in spread n (if ok then i + 1 else i) m d' s'

unfoldable pub distribute : Msg → Dist → Store → Dist × Store
unfolding spread
distribute m d s = spread d.matching 0 m d s

unfoldable pub send_to_matching : Msg → Dist → Store → Dist × Store
unfolding distribute
send_to_matching m d s =
    let (d', s') = distribute m d s in
    (record d' { active = if m.more then d'.active else d'.eligible; more = m.more }, s')

unfoldable pub send_to_all : Msg → Dist → Store → Dist × Store
unfolding send_to_matching
send_to_all m d s = send_to_matching m (record d { matching = d.active }) s

-- The loop of `check_hwm`, for `n` values of `i`.
unfoldable pub all_have_room : ℕ → ℕ → Dist → Store → Bool
all_have_room zero i d s = true
all_have_room (suc n) i d s =
    if not (Pipe.check_hwm (s (d.pipes.items i)).pipe) then false else all_have_room n (i + 1) d s

unfoldable pub check_hwm : Dist → Store → Bool
unfolding all_have_room
check_hwm d s = all_have_room d.matching 0 d s
