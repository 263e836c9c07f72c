-- ===== src/Trie.antt =====
-- src/trie.cpp: the subscription tree of a SUB or XSUB socket.
-- A node's union `next` is the list of its `count` pointers: one for `next.node` where `count` is 1,
-- else `next.table`. `none` as a result is a failed `zmq_assert` or the use of a NULL pointer.
pub mod Lookup
pub mod Refs
pub mod Add
pub mod Rm
pub mod Check
pub mod Apply
mod Tests
use zeromq.Prelude.{
  ℕ, zero, suc, ◌+◌, ◌-◌, ◌%◌, ◌^◌, min, Bool, true, false, ◌||◌, ◌&&◌, Option, none, some, List,
  [], ◌∷◌, ◌++◌, not, ltb, leb, ◌==◌, if◌then◌else◌, ◌>>=◌, require,
}

mutual
  pub data Trie : Type 0 where
    node : ℕ → ℕ → ℕ → ℕ → Slots → Trie

  pub data Slots : Type 0 where
    end : Slots
    gap : Slots → Slots
    sub : Trie → Slots → Slots

-- refcnt, min, count, live_nodes, next
pub new : Trie
new = node 0 0 0 0 end

-- `next.table [i]`
unfoldable pub get : Slots → ℕ → Option Trie
get end i = none
get (gap s) zero = none
get (gap s) (suc i) = get s i
get (sub t s) zero = some t
get (sub t s) (suc i) = get s i

-- `slot o s` has `o` in front.
abbrev pub slot : Option Trie → Slots → Slots
slot none s = gap s
slot (some t) s = sub t s

-- `next.table [i] = o`
unfoldable pub put : Slots → ℕ → Option Trie → Slots
put end i o = end
put (gap s) zero o = slot o s
put (gap s) (suc i) o = gap (put s i o)
put (sub t s) zero o = slot o s
put (sub t s) (suc i) o = sub t (put s i o)

-- n NULL pointers in front, n behind, the first n pointers, and all but these.
unfoldable pub pad_left : ℕ → Slots → Slots
pad_left zero s = s
pad_left (suc n) s = gap (pad_left n s)

unfoldable pub pad_right : Slots → ℕ → Slots
unfolding pad_left
pad_right end n = pad_left n end
pad_right (gap s) n = gap (pad_right s n)
pad_right (sub t s) n = sub t (pad_right s n)

unfoldable pub take : ℕ → Slots → Slots
take zero s = end
take (suc n) end = end
take (suc n) (gap s) = gap (take n s)
take (suc n) (sub t s) = sub t (take n s)

unfoldable pub drop : ℕ → Slots → Slots
drop zero s = s
drop (suc n) end = end
drop (suc n) (gap s) = drop n s
drop (suc n) (sub t s) = drop n s

pub record Table : Type 0 where
  pub low : ℕ
  pub count : ℕ
  pub slots : Slots

-- `c < min || c >= min + count`
abbrev pub outside : ℕ → ℕ → ℕ → Bool
outside c low count = ltb c low || leb (low + count) c

-- The table after it was extended for the character c.
unfoldable pub extend : ℕ → Table → Table
unfolding put pad_left pad_right get
extend c t =
    if outside c t.low t.count
    then if t.count == 0
      then record { low = c; count = 1; slots = gap end }
      else if t.count == 1
      then (let n = (if ltb t.low c then c - t.low else t.low - c) + 1 in
          record {
            low = min t.low c;
            count = n;
            slots = put (pad_left n end) (t.low - min t.low c) (get t.slots 0);
          })
      else if ltb t.low c
      then record t { count = c - t.low + 1; slots = pad_right t.slots (c - t.low + 1 - t.count) }
      else record { low = c; count = t.low + t.count - c; slots = pad_left (t.low - c) t.slots }
    else t

-- `next.node`, or `next.table [c - min]`
abbrev pub index : ℕ → Table → ℕ
index c t = if t.count == 1 then 0 else c - t.low

-- The node below, made where there is none, and `live_nodes`.
unfoldable pub below : Option Trie → ℕ → ℕ → Option (Trie × ℕ)
below (some t) count live = some (t, live)
below none count live =
    require (if count == 1 then live + 1 == 1 else ltb 1 (live + 1)) (some (new, live + 1))

unfoldable pub add : List ℕ → Trie → Option (Trie × Bool)
unfolding extend below
add [] (node refcnt low count live s) =
    let n = (refcnt + 1) % 2 ^ 32 in some (node n low count live s, n == 1)
add (c ∷ rest) (node refcnt low count live s) = do
  let t = extend c (record { low = low; count = count; slots = s })
  let i = index c t
  (child, live') ← below (get t.slots i) t.count live
  (child', fresh) ← add rest child
  some (node refcnt t.low t.count live' (put t.slots i (some child')), fresh)

unfoldable pub is_redundant : Trie → Bool
is_redundant (node refcnt low count live s) = refcnt == 0 && live == 0

-- The loops of the compaction, over the pointers in the order in which they look at them: the first
-- i, of `rounds` many, at which there is one.
unfoldable pub first_in : (ℕ → Option Trie) → ℕ → ℕ → Option ℕ
first_in pointer i zero = none
first_in pointer i (suc rounds) =
    let rest = first_in pointer (suc i) rounds in elim (pointer i) [ some t ↦ some i | none ↦ rest ]

-- The node left in a table of two live nodes that loses one of its ends, with its character.
unfoldable pub survivor : ℕ → Table → Option (Trie × ℕ)
unfolding get
survivor c t =
    if c == t.low
    then (get t.slots (t.count - 1) >>= λ u. some (u, t.low + (t.count - 1)))
    else if c == t.low + t.count - 1
    then (get t.slots 0 >>= λ u. some (u, t.low))
    else none

-- The pointer to the child at c has just been set to NULL, `live` nodes being left.
unfoldable pub compact : ℕ → ℕ → Table → Option Table
unfolding survivor first_in take drop
compact c live t =
    if live == 1
    then (survivor c t >>= λ (u, low). some (record { low = low; count = 1; slots = sub u end }))
    else if c == t.low
    then (first_in (get t.slots) 1 (t.count - 1) >>= λ i.
        some (record { low = t.low + i; count = t.count - i; slots = drop i t.slots }))
    else if c == t.low + t.count - 1
    then (first_in (λ i. get t.slots (t.count - 1 - i)) 1 (t.count - 1) >>= λ i.
        some (record t { count = t.count - i; slots = take (t.count - i) t.slots }))
    else some t

-- The child at c was made redundant and is deleted.
unfoldable pub prune : ℕ → ℕ → ℕ → Table → Option Trie
unfolding compact
prune c refcnt live t =
    if t.count == 1
    then require (live - 1 == 0) (some (node refcnt t.low 0 (live - 1) end))
    else require (ltb 1 live) (
        compact c (live - 1) (record t { slots = put t.slots (c - t.low) none }) >>= λ t'.
        some (node refcnt t'.low t'.count (live - 1) t'.slots))

unfoldable pub rm : List ℕ → Trie → Option (Trie × Bool)
unfolding prune is_redundant
rm [] (node refcnt low count live s) =
    if refcnt == 0
    then some (node refcnt low count live s, false)
    else some (node (refcnt - 1) low count live s, refcnt - 1 == 0)
rm (c ∷ rest) (node refcnt low count live s) =
    let t : Table = record { low = low; count = count; slots = s } in
    if count == 0 || outside c low count
    then some (node refcnt low count live s, false)
    else elim (get s (index c t)) [
      | none ↦ some (node refcnt low count live s, false)
      | some child ↦ rm rest child >>= λ (child', last).
          if is_redundant child'
          then (prune c refcnt live t >>= λ t'. some (t', last))
          else some (node refcnt low count live (put s (index c t) (some child')), last)
    ]

-- `check` walks down the data; `next.node` is followed without a test.
unfoldable pub check : List ℕ → Trie → Option Bool
unfolding get
check [] (node refcnt low count live s) = some (ltb 0 refcnt)
check (c ∷ rest) (node refcnt low count live s) =
    let t : Table = record { low = low; count = count; slots = s } in
    if ltb 0 refcnt
    then some true
    else if outside c low count
    then some false
    else elim (get s (index c t)) [
      | some u ↦ check rest u
      | none ↦ if count == 1 then none else some false
    ]

abbrev pub is_there : Option Trie → Bool
is_there none = false
is_there (some t) = true

-- `apply_helper` with the `buffsize_` bytes of the buffer: the prefixes for which `func_` is called, in the order of
-- the calls. `next.node` is followed without a test.
unfoldable mutual
  pub apply_helper : List ℕ → Trie → Option (List (List ℕ))
  apply_helper buff (node refcnt low count live s) =
      require (not (count == 1) || is_there (get s 0))
        (apply_table buff low s >>= λ l. some (if ltb 0 refcnt then buff ∷ l else l))

  -- The children from the character `c` on.
  pub apply_table : List ℕ → ℕ → Slots → Option (List (List ℕ))
  apply_table buff c end = some []
  apply_table buff c (gap s) = apply_table buff (c + 1) s
  apply_table buff c (sub t s) = apply_helper (buff ++ (c % 256) ∷ []) t >>= λ l.
      (apply_table buff (c + 1) s >>= λ l'. some (l ++ l'))

unfoldable pub apply : Trie → Option (List (List ℕ))
unfolding apply_helper
apply t = apply_helper [] t
