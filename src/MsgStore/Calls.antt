-- ===== src/MsgStore/Calls.antt =====
-- Calls on messages in any order.
use zeromq.Prelude.{
  ◌≢◌, ℕ, zero, suc, ◌^◌, ◌<◌, ◌≡◌, ◌↔◌, refl, sym, ap, ◌∙◌, inl, inr, Bool, true, false, Option,
  none, some, Option-cases, List, [], length, length-replicate, get_or, replicate, leb, arith,
  Bool-cases,
}
use zeromq.MsgStore.{
  data_of, Body, vsm, cmsg, lmsg, zclmsg, null_lmsg, delimiter, join, leave, Message, Content,
  Store, message, load, put_message, no_message, plain, max_vsm_size, allocate, init, init_size,
  init_data, init_external_storage, init_delimiter, init_join, init_leave, close, move, copy,
}
use zeromq.MsgStore.Count.{points, count}
use zeromq.MsgStore.Sound.{IsSound, PointsNowhere, put-IsSound}
use zeromq.MsgStore.Give.{allocate-IsSound}
use zeromq.MsgStore.Close.{close-Closed}
use zeromq.MsgStore.Data.{copied_bytes}
use zeromq.MsgStore.Null.{
  SoundAfter, close-SoundAfter, move-SoundAfter, copy-SoundAfter, copied_real,
}
use zeromq.MsgStore.Transfer.{Returns, move-Returns, copy-Returns}

-- `n` variables of type `msg_t`, none of which is initialised.
abbrev pub new_messages : ℕ → Store
new_messages n = record { messages = replicate n no_message; contents = [] }

-- A call on a variable, which has returned. A variable is initialised only where it has no content, and external
-- storage comes with a function that frees it. `init_size` and `init_data` may have returned ENOMEM.
pub data Step : Store → Store → Type 0 where
  init_step :
      (i : ℕ) (s : Store)
      → i < length s.messages
      → PointsNowhere (message i s).type
      → Step s (init i s)
  init_size_step :
      (alloc : Bool) (i : ℕ) (bytes : List ℕ) (s : Store)
      → i < length s.messages
      → PointsNowhere (message i s).type
      → Step s (init_size alloc i bytes s).1
  init_data_step :
      (alloc : Bool) (i : ℕ) (bytes : List ℕ) (ffn : Bool) (s : Store)
      → i < length s.messages
      → PointsNowhere (message i s).type
      → Step s (init_data alloc i bytes ffn s).1
  init_external_storage_step :
      (i : ℕ) (bytes : List ℕ) (s : Store)
      → i < length s.messages
      → PointsNowhere (message i s).type
      → Step s (init_external_storage i bytes true s)
  init_delimiter_step :
      (i : ℕ) (s : Store)
      → i < length s.messages
      → PointsNowhere (message i s).type
      → Step s (init_delimiter i s)
  init_join_step :
      (i : ℕ) (s : Store)
      → i < length s.messages
      → PointsNowhere (message i s).type
      → Step s (init_join i s)
  init_leave_step :
      (i : ℕ) (s : Store)
      → i < length s.messages
      → PointsNowhere (message i s).type
      → Step s (init_leave i s)
  close_step :
      (i : ℕ) (rc : Bool) (s s' : Store)
      → i < length s.messages
      → close i s ≡ some (rc, s')
      → Step s s'
  move_step :
      (i j : ℕ) (rc : Bool) (s s' : Store)
      → i < length s.messages
      → j < length s.messages
      → move i j s ≡ some (rc, s')
      → Step s s'
  copy_step :
      (i j : ℕ) (rc : Bool) (s s' : Store)
      → i < length s.messages
      → j < length s.messages
      → copy i j s ≡ some (rc, s')
      → Step s s'

pub data Reach : Store → Store → Type 0 where
  here : {s : Store} → Reach s s
  next : {s s' s'' : Store} → Reach s s' → Step s' s'' → Reach s s''

module _ (s : Store) (i : ℕ) (h : i < length s.messages) (v : IsSound s) where
  pub close-Returns : (message i s).type ≢ null_lmsg → Returns s (close i s)
  close-Returns real =
      let (rc, s', e, k) = close-Closed s i h v real in (rc, s', e, k.sound, k.same_length)

  module _ (from_nowhere : PointsNowhere (message i s).type) where
    plain-IsSound : (b : Body) → PointsNowhere b → IsSound (put_message i (plain b) s)
    plain-IsSound b n = put-IsSound s i (plain b) h from_nowhere n v

    lmsg-IsSound : (c : Content) → IsSound (allocate i lmsg c s)
    lmsg-IsSound c =
        allocate-IsSound s i lmsg c h from_nowhere
          (record { to = let q = length s.contents in ground arith; outer = λ p x. absurd cc }) v

    init_size-IsSound : (alloc : Bool) (bytes : List ℕ) → IsSound (init_size alloc i bytes s).1
    unfolding init_size
    init_size-IsSound alloc bytes = elim (Bool-cases (leb (length bytes) max_vsm_size)) [
      | inl y ↦ rw y (plain-IsSound (vsm bytes) (λ p. refl))
      | inr n ↦ elim (Bool-cases alloc) [
        | inl y ↦ rw (n, y) (lmsg-IsSound (record { bytes = bytes; ffn = false; refcnt = 0 }))
        | inr m ↦ rw (n, m) (plain-IsSound null_lmsg (λ p. refl))
      ]
    ]

    init_data-IsSound :
        (alloc : Bool) (bytes : List ℕ) (ffn : Bool) → IsSound (init_data alloc i bytes ffn s).1
    unfolding init_data
    init_data-IsSound alloc bytes false = plain-IsSound (cmsg bytes) (λ p. refl)
    init_data-IsSound true bytes true =
        lmsg-IsSound (record { bytes = bytes; ffn = true; refcnt = 0 })
    init_data-IsSound false bytes true = plain-IsSound null_lmsg (λ p. refl)

    external-IsSound : (bytes : List ℕ) → IsSound (init_external_storage i bytes true s)
    unfolding init_external_storage
    external-IsSound bytes =
        allocate-IsSound s i zclmsg (record { bytes = bytes; ffn = true; refcnt = 0 }) h
          from_nowhere
          (record { to = let q = length s.contents in ground arith; outer = λ p x. refl }) v

returned :
    (s' : Store) (o : Option (Bool × Store)) (rc : Bool)
    → SoundAfter o
    → o ≡ some (rc, s')
    → IsSound s'
returned s' o rc sound e = rw e at sound

step-IsSound : {s s' : Store} → Step s s' → IsSound s → IsSound s'
unfolding init init_delimiter init_join init_leave
step-IsSound (init_step i s h e) v = plain-IsSound s i h v e (vsm []) (λ p. refl)
step-IsSound (init_size_step alloc i bytes s h e) v = init_size-IsSound s i h v e alloc bytes
step-IsSound (init_data_step alloc i bytes ffn s h e) v =
    init_data-IsSound s i h v e alloc bytes ffn
step-IsSound (init_external_storage_step i bytes s h e) v = external-IsSound s i h v e bytes
step-IsSound (init_delimiter_step i s h e) v = plain-IsSound s i h v e delimiter (λ p. refl)
step-IsSound (init_join_step i s h e) v = plain-IsSound s i h v e join (λ p. refl)
step-IsSound (init_leave_step i s h e) v = plain-IsSound s i h v e leave (λ p. refl)
step-IsSound (close_step i rc s s' h e) v =
    returned s' (close i s) rc (close-SoundAfter s i i h h v) e
step-IsSound (move_step i j rc s s' h k e) v =
    returned s' (move i j s) rc (move-SoundAfter s i j h k v) e
step-IsSound (copy_step i j rc s s' h k e) v =
    returned s' (copy i j s) rc (copy-SoundAfter s i j h k v) e

none_at : (n i : ℕ) → get_or (replicate n no_message) i no_message ≡ no_message
none_at zero i = refl
none_at (suc n) zero = refl
none_at (suc n) (suc i) = none_at n i

none_counted : (p n : ℕ) → count p (replicate n no_message) ≡ 0
none_counted p zero = refl
none_counted p (suc n) = omega (arith, none_counted p n)

new_messages-IsSound : (n : ℕ) → n < 2 ^ 32 → IsSound (new_messages n)
new_messages-IsSound n h = record {
  few = omega (arith, length-replicate n no_message);
  freed = λ p e. none_counted p n;
  used = λ p c e. absurd cc;
  alone = λ i p e f.
      absurd (let g = sym (ap (λ (m : Message). points p m.type) (none_at n i)) ∙ e in omega arith);
  shared = λ i p c e f l. absurd cc;
  outer = λ i p c e l. absurd cc;
}

Reach-IsSound : {s s' : Store} → Reach s s' → IsSound s → IsSound s'
Reach-IsSound here v = v
Reach-IsSound (next r step) v = step-IsSound step (Reach-IsSound r v)

-- From new variables, fewer than 2^32, after calls that returned, where a variable is initialised only when it
-- has no content and external storage comes with a function that frees it: `close`, `move` and `copy` of
-- variables that were not left with NULL by an ENOMEM return, that is, they do not use a content that was freed,
-- and no assertion fails.
pub Reach-new_messages_returns :
    (n : ℕ) {s : Store} (i j : ℕ)
    → n < 2 ^ 32
    → Reach (new_messages n) s
    → i < length s.messages
    → j < length s.messages
    → (message i s).type ≢ null_lmsg
    → (message j s).type ≢ null_lmsg
    → Returns s (close i s) × Returns s (move i j s) × Returns s (copy i j s)
Reach-new_messages_returns n {s} i j few r hi hj real_i real_j =
    let v = Reach-IsSound r (new_messages-IsSound n few) in
    (
      close-Returns s i hi v real_i,
      move-Returns s i j hi hj v real_i,
      copy-Returns s i j hi hj v real_i real_j,
    )

-- From new variables, fewer than 2^32, after calls that returned, where a variable is initialised only when it
-- has no content and external storage comes with a function that frees it, and `init_size` and `init_data` may
-- have returned ENOMEM: a content is freed exactly when no variable holds a message that points to it.
pub Reach-new_messages_freed :
    (n : ℕ) {s : Store} (p : ℕ)
    → n < 2 ^ 32
    → Reach (new_messages n) s
    → (load p s ≡ none) ↔ (count p s.messages ≡ 0)
Reach-new_messages_freed n {s} p few r =
    let v = Reach-IsSound r (new_messages-IsSound n few) in
    (
      v.freed p,
      λ z. elim (Option-cases (load p s)) [
        | inl e ↦ e
        | inr (c, e) ↦ absurd (omega (arith, v.used p c e, z))
      ],
    )

-- From new variables, fewer than 2^32, after calls that returned, where a variable is initialised only when it
-- has no content and external storage comes with a function that frees it: when `copy` from one variable to
-- another returns 0, both have the bytes that the source had, whether it has a content of its own, a shared one
-- or none.
pub Reach-new_messages_copied :
    (n : ℕ) {s s' : Store} (i j : ℕ)
    → n < 2 ^ 32
    → Reach (new_messages n) s
    → i < length s.messages
    → j < length s.messages
    → i ≢ j
    → copy i j s ≡ some (true, s')
    → (data_of i s' ≡ data_of j s) × (data_of j s' ≡ data_of j s)
Reach-new_messages_copied n {s} {s'} i j few r hi hj ne e =
    let v = Reach-IsSound r (new_messages-IsSound n few) in
    let (real_i, real_j) = copied_real s i j hi hj v s' e in
    copied_bytes s i j hi hj ne v real_i real_j s' e
