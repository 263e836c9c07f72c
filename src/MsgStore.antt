-- ===== src/MsgStore.antt =====
-- src/msg.cpp: messages and the contents that they share. A `msg_t` is a variable, named by its place among
-- the messages; a `content_t` is named by its address, which is its place among the contents, and `none` is there
-- when it was freed. A result `none` is the use of a content that was freed or of NULL, or a failed assertion. Metadata,
-- group, routing id and the flags other than `shared` are left out.
pub mod Count
pub mod Sound
pub mod Drop
pub mod Give
pub mod Share
pub mod Close
pub mod Transfer
pub mod Data
pub mod Null
pub mod Calls
mod Tests
use zeromq.Prelude.{
  ℕ, zero, suc, ◌+◌, ◌-◌, ◌%◌, ◌^◌, Bool, true, false, not, ◌||◌, Option, none, some, List, [], ◌∷◌,
  ◌++◌, length, get_or, set, replicate, ltb, leb, ◌==◌, if◌then◌else◌, require, ◌>>=◌,
}

-- `u.base.type`, with what the union holds for it: data, or a pointer to the content. `invalid` is what `check`
-- refuses; `null_lmsg` has the type of `lmsg` and a pointer that is NULL.
pub data Body : Type 0 where
  invalid : Body
  vsm cmsg : List ℕ → Body
  lmsg zclmsg : ℕ → Body
  null_lmsg : Body
  delimiter join leave : Body

pub record Message : Type 0 where
  pub type : Body
  pub shared : Bool

-- `ffn` says whether there is a function that frees the data.
pub record Content : Type 0 where
  pub bytes : List ℕ
  pub ffn : Bool
  pub refcnt : ℕ

pub record Store : Type 0 where
  pub messages : List Message
  pub contents : List (Option Content)

abbrev pub no_message : Message
no_message = record { type = invalid; shared = false }

abbrev pub message : ℕ → Store → Message
message i s = get_or s.messages i no_message

abbrev pub load : ℕ → Store → Option Content
load p s = get_or s.contents p none

abbrev pub put_message : ℕ → Message → Store → Store
put_message i m s = record s { messages = set s.messages i m }

abbrev pub store : ℕ → Content → Store → Store
store p c s = record s { contents = set s.contents p (some c) }

abbrev pub free : ℕ → Store → Store
free p s = record s { contents = set s.contents p none }

abbrev pub max_vsm_size : ℕ
max_vsm_size = 33

abbrev pub check : Message → Bool
check m = elim m.type [ invalid ↦ false | _ ↦ true ]

-- A message that holds its data itself.
abbrev pub plain : Body → Message
plain b = record { type = b; shared = false }

-- A new content, with a counter of zero, to which the message points.
abbrev pub allocate : ℕ → (ℕ → Body) → Content → Store → Store
allocate i kind c s =
    put_message i (plain (kind (length s.contents)))
      (record s { contents = s.contents ++ some c ∷ [] })

unfoldable pub init : ℕ → Store → Store
init i s = put_message i (plain (vsm [])) s

-- `init_size`, with the bytes that are written to the message then. `alloc` says whether there is memory. `true` is 0
-- and `false` is ENOMEM, here and in `init_data`.
unfoldable pub init_size : Bool → ℕ → List ℕ → Store → Bool × Store
init_size alloc i bytes s =
    if leb (length bytes) max_vsm_size
    then (true, put_message i (plain (vsm bytes)) s)
    else if alloc
    then (true, allocate i lmsg (record { bytes = bytes; ffn = false; refcnt = 0 }) s)
    else (false, put_message i (plain null_lmsg) s)

unfoldable pub init_data : Bool → ℕ → List ℕ → Bool → Store → Bool × Store
init_data alloc i bytes ffn s =
    if not ffn
    then (true, put_message i (plain (cmsg bytes)) s)
    else if alloc
    then (true, allocate i lmsg (record { bytes = bytes; ffn = true; refcnt = 0 }) s)
    else (false, put_message i (plain null_lmsg) s)

-- The content is storage of the caller, who has one for each message.
unfoldable pub init_external_storage : ℕ → List ℕ → Bool → Store → Store
init_external_storage i bytes ffn s =
    allocate i zclmsg (record { bytes = bytes; ffn = ffn; refcnt = 0 }) s

unfoldable pub init_delimiter : ℕ → Store → Store
init_delimiter i s = put_message i (plain delimiter) s

unfoldable pub init_join : ℕ → Store → Store
init_join i s = put_message i (plain join) s

unfoldable pub init_leave : ℕ → Store → Store
init_leave i s = put_message i (plain leave) s

-- `atomic_counter_t` has 32 bits.
abbrev pub sub_one : ℕ → ℕ
sub_one n = (n + (2 ^ 32 - 1)) % 2 ^ 32

abbrev pub add_one : ℕ → ℕ
add_one n = (n + 1) % 2 ^ 32

-- One reference less, or the content is freed, if it is not shared or this was the last reference.
abbrev pub drop_ref : Bool → ℕ → Content → Store → Store
drop_ref shared p c s =
    if not shared || (sub_one c.refcnt == 0)
    then free p s
    else store p (record c { refcnt = sub_one c.refcnt }) s

-- What `close` does with the content.
unfoldable pub release : Message → Store → Option Store
release m s = elim m.type [
  | lmsg p ↦ load p s >>= λ c. some (drop_ref m.shared p c s)
  | zclmsg p ↦ load p s >>= λ c. require c.ffn (some (drop_ref m.shared p c s))
  | null_lmsg ↦ none
  | _ ↦ some s
]

-- `true` is 0 and `false` is EFAULT, here and below.
unfoldable pub close : ℕ → Store → Option (Bool × Store)
unfolding release
close i s =
    let m = message i s in
    if check m
    then (release m s >>= λ s'. some (true, put_message i (record m { type = invalid }) s'))
    else some (false, s)

unfoldable pub move : ℕ → ℕ → Store → Option (Bool × Store)
unfolding close init
move i j s =
    if check (message j s)
    then (close i s >>= λ (rc, s').
        (some (if rc then (true, init j (put_message i (message j s') s')) else (false, s'))))
    else some (false, s)

-- The content of a message that is copied has one reference more; without the flag it has two.
abbrev pub add_ref : Message → ℕ → Content → Content
add_ref m p c = record c { refcnt = if m.shared then add_one c.refcnt else 2 }

-- The source of a copy, and its content, before `*this = src_`.
unfoldable pub share : ℕ → Store → Option Store
share j s =
    let m = message j s in
    let shared = put_message j (record m { shared = true }) s in
    elim m.type [
      | lmsg p ↦ load p s >>= λ c. some (store p (add_ref m p c) shared)
      | zclmsg p ↦ load p s >>= λ c. some (store p (add_ref m p c) shared)
      | null_lmsg ↦ none
      | _ ↦ some s
    ]

unfoldable pub copy : ℕ → ℕ → Store → Option (Bool × Store)
unfolding close share
copy i j s =
    if check (message j s)
    then (close i s >>= λ (rc, s').
        (if rc
          then (share j s' >>= λ s''. some (true, put_message i (message j s'') s''))
          else some (false, s')))
    else some (false, s)

-- The bytes of a content, and those of `data ()`; `none` is a failed assertion or the use of NULL.
abbrev pub bytes_at : ℕ → Store → Option (List ℕ)
bytes_at p s = load p s >>= λ c. some c.bytes

abbrev pub bytes_of : Body → Store → Option (List ℕ)
bytes_of invalid s = none
bytes_of (vsm bytes) s = some bytes
bytes_of (cmsg bytes) s = some bytes
bytes_of (lmsg p) s = bytes_at p s
bytes_of (zclmsg p) s = bytes_at p s
bytes_of null_lmsg s = none
bytes_of delimiter s = none
bytes_of join s = none
bytes_of leave s = none

unfoldable pub data_of : ℕ → Store → Option (List ℕ)
data_of i s = bytes_of (message i s).type s
