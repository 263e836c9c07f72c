-- ===== src/MsgStore/Sound.antt =====
-- The invariant of messages and contents, and the changes of the store that keep it.
use zeromq.Prelude.{
  ℕ, zero, suc, ◌^◌, ◌≤◌, ◌<◌, ◌≡◌, ◌≢◌, ◌⊎◌, refl, sym, ap, ◌∙◌, inl, inr, true, false, Option,
  none, some, List, [], ◌∷◌, length, get_or, set, length-set, get_or-set_self, get_or-set_ne, ◌==◌,
  ==_iff, arith, Bool-cases,
}
use zeromq.MsgStore.{
  Body, lmsg, zclmsg, Message, Content, Store, message, load, put_message, no_message,
}
use zeromq.MsgStore.Count.{points, count, count-set}

-- There are fewer messages than a counter can count. A content is freed exactly if no message points to it; one
-- message without the flag `shared` points to it alone, and where a message has the flag, the counter is the
-- number of messages that point to the content.
pub record IsSound (s : Store) : Type 0 where
  pub few : length s.messages < 2 ^ 32
  pub freed : (p : ℕ) → load p s ≡ none → count p s.messages ≡ 0
  pub used : (p : ℕ) (c : Content) → load p s ≡ some c → 1 ≤ count p s.messages
  pub alone :
      (i p : ℕ)
      → points p (message i s).type ≡ 1
      → (message i s).shared ≡ false
      → count p s.messages ≡ 1
  pub shared :
      (i p : ℕ) (c : Content)
      → points p (message i s).type ≡ 1
      → (message i s).shared ≡ true
      → load p s ≡ some c
      → c.refcnt ≡ count p s.messages
  pub outer :
      (i p : ℕ) (c : Content) → (message i s).type ≡ zclmsg p → load p s ≡ some c → c.ffn ≡ true

pub same_or_not : (a b : ℕ) → (a ≡ b) ⊎ (a ≢ b)
same_or_not a b = elim (Bool-cases (a == b)) [
  | inl y ↦ inl ((==_iff a b).0 y)
  | inr n ↦ inr (λ e. ground arith)
]

-- A variable after one of them was written.
pub message_cases :
    (s : Store) (i k : ℕ) (m : Message)
    → i < length s.messages
    → ((k ≡ i) × (message k (put_message i m s) ≡ m))
      ⊎ ((k ≢ i) × (message k (put_message i m s) ≡ message k s))
message_cases s i k m h = elim (same_or_not k i) [
  | inl e ↦ inl (e, rw e (get_or-set_self s.messages i m no_message h))
  | inr n ↦ inr (n, get_or-set_ne s.messages i k m no_message (λ e. n (sym e)))
]

pub in_range :
    (xs : List (Option Content)) (p : ℕ) (c : Content) → get_or xs p none ≡ some c → p < length xs
in_range [] p c e = absurd cc
in_range (x ∷ xs) zero c e = omega arith
in_range (x ∷ xs) (suc p) c e = let k = in_range xs p c e in omega arith

pub load_cases :
    (s : Store) (q p : ℕ) (c : Content) (o : Option Content)
    → load q s ≡ some c
    → ((p ≡ q) × (get_or (set s.contents q o) p none ≡ o))
      ⊎ ((p ≢ q) × (get_or (set s.contents q o) p none ≡ load p s))
load_cases s q p c o h = elim (same_or_not p q) [
  | inl e ↦ inl (e, rw e (get_or-set_self s.contents q o none (in_range s.contents q c h)))
  | inr n ↦ inr (n, get_or-set_ne s.contents q p o none (λ e. n (sym e)))
]

-- A message points to one content.
pub points_other : (p q : ℕ) (b : Body) → points q b ≡ 1 → p ≢ q → points p b ≡ 0
points_other p q b h n =
    elim b as (λ x. points q x ≡ 1 → points p x ≡ 0) [
      | lmsg x ↦ λ e. ground arith
      | zclmsg x ↦ λ e. ground arith
      | _ ↦ λ e. refl
    ]
      h

pub points-zclmsg : (p : ℕ) (b : Body) → b ≡ zclmsg p → points p b ≡ 1
points-zclmsg p b e = rw e (let same : (p == p) ≡ true = ground arith in rw same refl)

abbrev pub PointsNowhere : Body → Type 0
PointsNowhere b = (p : ℕ) → points p b ≡ 0

-- A message that points nowhere is written over one that points nowhere.
pub put-IsSound :
    (s : Store) (i : ℕ) (m : Message)
    → i < length s.messages
    → PointsNowhere (message i s).type
    → PointsNowhere m.type
    → IsSound s
    → IsSound (put_message i m s)
put-IsSound s i m h old new v =
    let same : (p : ℕ) → count p (set s.messages i m) ≡ count p s.messages =
      λ p. omega (arith, count-set p i m s.messages h, old p, new p) in
    record {
      few = omega (arith, length-set s.messages i m, v.few);
      freed = λ p e. same p ∙ v.freed p e;
      used = λ p c e. omega (arith, same p, v.used p c e);
      alone = λ k p e f. elim (message_cases s i k m h) [
        | inl (a, b) ↦ absurd (omega (arith, new p, sym (ap (λ x. points p x.type) b) ∙ e))
        | inr (a, b) ↦
            same p
            ∙ v.alone k p (sym (ap (λ x. points p x.type) b) ∙ e) (sym (ap (λ x. x.shared) b) ∙ f)
      ];
      shared = λ k p c e f l. elim (message_cases s i k m h) [
        | inl (a, b) ↦ absurd (omega (arith, new p, sym (ap (λ x. points p x.type) b) ∙ e))
        | inr (a, b) ↦
            v.shared k p c (sym (ap (λ x. points p x.type) b) ∙ e) (sym (ap (λ x. x.shared) b) ∙ f)
              l
            ∙ sym (same p)
      ];
      outer = λ k p c e l. elim (message_cases s i k m h) [
        | inl (a, b) ↦
            absurd (omega (arith, new p, points-zclmsg p m.type (sym (ap (λ x. x.type) b) ∙ e)))
        | inr (a, b) ↦ v.outer k p c (sym (ap (λ x. x.type) b) ∙ e) l
      ];
    }
