-- ===== src/ReqSession/Grammar.antt =====
-- The replies that a session lets through, as a grammar.
use zeromq.Prelude.{
  ℕ, zero, suc, ◌≤◌, ◌≡◌, ◌↔◌, refl, ap, ◌∙◌, inl, inr, true, false, ◌&&◌, some, List, [], ◌∷◌,
  ◌++◌, length, ◌==◌, Bool-cases, both_true, arith,
}
use zeromq.Msg.{Msg}
use zeromq.ReqSession.{State, bottom, request_id, body, only_more, no_flag, follow, follow_all}

-- Parts with `more`, and a last one without.
pub data IsBody : List Msg → Type 0 where
  last : (m : Msg) → no_flag m ≡ true → IsBody (m ∷ [])
  part : (m : Msg) (ms : List Msg) → only_more m ≡ true → IsBody ms → IsBody (m ∷ ms)

-- The empty part, and the body.
pub data IsDelimited : List Msg → Type 0 where
  delimited :
      (m : Msg) (ms : List Msg)
      → only_more m ≡ true
      → length m.body ≡ 0
      → IsBody ms
      → IsDelimited (m ∷ ms)

-- It may stand behind the number of the request.
pub data IsReply : List Msg → Type 0 where
  plain : (ms : List Msg) → IsDelimited ms → IsReply ms
  numbered :
      (m : Msg) (ms : List Msg)
      → only_more m ≡ true
      → length m.body ≡ 4
      → IsDelimited ms
      → IsReply (m ∷ ms)

pub data Replies : List Msg → Type 0 where
  nothing_more : Replies []
  one_more : (r rs ms : List Msg) → IsReply r → Replies rs → ms ≡ r ++ rs → Replies ms

exclusive : (m : Msg) → no_flag m ≡ true → only_more m ≡ false
exclusive m h = ground (arith, h)

body_passes : (b rs : List Msg) → IsBody b → follow_all body (b ++ rs) ≡ follow_all bottom rs
unfolding follow_all follow
body_passes _ rs (last m h) = rw (exclusive m h, h) refl
body_passes _ rs (part m ms h b) = rw h (body_passes ms rs b)

delimited_passes :
    (b rs : List Msg) → IsDelimited b → follow_all bottom (b ++ rs) ≡ follow_all bottom rs
unfolding follow_all follow
delimited_passes _ rs (delimited m ms h z b) = rw (h, z) (body_passes ms rs b)

reply_passes : (b rs : List Msg) → IsReply b → follow_all bottom (b ++ rs) ≡ follow_all bottom rs
unfolding follow_all follow
reply_passes _ rs (plain ms d) = delimited_passes ms rs d
reply_passes _ rs (numbered m _ h z (delimited n ms h' z' b)) =
    rw (h, z, h', z') (body_passes ms rs b)

passes : (ms : List Msg) → Replies ms → follow_all bottom ms ≡ some bottom
unfolding follow_all
passes _ nothing_more = refl
passes ms (one_more r rs _ d rest e) =
    ap (follow_all bottom) e ∙ reply_passes r rs d ∙ passes rs rest

abbrev EndsInBottom : State → List Msg → Type 0
EndsInBottom st ms = follow_all st ms ≡ some bottom

-- A body is at the beginning, and what follows ends in `bottom` again.
abbrev Split : List Msg → Type 0
Split ms =
    (b : List Msg) × (rs : List Msg) × (ms ≡ b ++ rs)
    × IsBody b
    × (length rs ≤ length ms)
    × EndsInBottom bottom rs

Split-body : (ms : List Msg) → EndsInBottom body ms → Split ms
unfolding follow_all follow
Split-body [] h = absurd cc
Split-body (m ∷ ms) h = elim (Bool-cases (only_more m)) [
  | inl more ↦
      let (b, rs, e, d, l, r) = Split-body ms (rw more at h) in
      (m ∷ b, rs, ap (λ x. m ∷ x) e, part m b more d, omega arith, r)
  | inr not_more ↦ elim (Bool-cases (no_flag m)) [
    | inl end ↦ (m ∷ [], ms, refl, last m end, omega arith, rw (not_more, end) at h)
    | inr bad ↦ let z = rw (not_more, bad) at h in absurd cc
  ]
]

is_zero : (n : ℕ) → n == 0 ≡ true → n ≡ 0
is_zero n h = grind arith

-- The number has been read.
split-IsDelimited :
    (ms : List Msg)
    → EndsInBottom request_id ms
    → (d : List Msg) × (rs : List Msg) × (ms ≡ d ++ rs)
      × IsDelimited d
      × (length rs ≤ length ms)
      × EndsInBottom bottom rs
unfolding follow_all follow
split-IsDelimited [] h = absurd cc
split-IsDelimited (m ∷ ms) h = elim (Bool-cases (only_more m && length m.body == 0)) [
  | inr bad ↦ let z = rw bad at h in absurd cc
  | inl good ↦
      let (more, empty) = both_true (only_more m) (length m.body == 0) good in
      let (b, rs, e, d, l, r) = Split-body ms (rw good at h) in
      (
        m ∷ b,
        rs,
        ap (λ x. m ∷ x) e,
        delimited m b more (is_zero (length m.body) empty) d,
        omega arith,
        r,
      )
]

read-Replies : (n : ℕ) (ms : List Msg) → length ms ≤ n → EndsInBottom bottom ms → Replies ms
unfolding follow_all follow
read-Replies n [] l h = nothing_more
read-Replies zero (m ∷ ms) l h = absurd (omega arith)
read-Replies (suc n) (m ∷ ms) l h = elim (Bool-cases (only_more m)) [
  | inr bad ↦ let z = rw bad at h in absurd cc
  | inl more ↦ elim (Bool-cases (length m.body == 4)) [
    | inl four ↦
        let (d, rs, e, x, k, r) = split-IsDelimited ms (rw (more, four) at h) in
        one_more (m ∷ d) rs (m ∷ ms) (numbered m d more (grind arith) x)
          (read-Replies n rs (omega arith) r) (ap (λ y. m ∷ y) e)
    | inr not_four ↦ elim (Bool-cases (length m.body == 0)) [
      | inr bad ↦ let z = rw (more, not_four, bad) at h in absurd cc
      | inl empty ↦
          let (b, rs, e, x, k, r) = Split-body ms (rw (more, not_four, empty) at h) in
          one_more (m ∷ b) rs (m ∷ ms)
            (plain (m ∷ b) (delimited m b more (is_zero (length m.body) empty) x))
            (read-Replies n rs (omega arith) r) (ap (λ y. m ∷ y) e)
    ]
  ]
]

-- From `bottom` the frames of a session lead back to `bottom`, and none is refused, exactly if they are
-- replies one after the other: each is an empty part with `more` and a body, with a number of four bytes
-- before it or not, and a body is parts with no flag but `more` and a last one with none.
pub follow_all_iff_Replies : (ms : List Msg) → (follow_all bottom ms ≡ some bottom) ↔ Replies ms
follow_all_iff_Replies ms = (read-Replies (length ms) ms (omega arith), passes ms)
