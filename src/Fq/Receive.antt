-- ===== src/Fq/Receive.antt =====
-- `recvpipe` when no message is unfinished.
use mathlib.Core.Path.{subst}
use zeromq.Prelude.{
  ℕ, zero, suc, ◌<◌, ◌≡◌, refl, sym, ap, ◌∙◌, inl, inr, Bool, true, false, not, ◌||◌, Option, none,
  some, List, [], ◌∷◌, arith, ◌>>=◌, Bool-cases, Option-cases,
}
use zeromq.Msg.{Msg}
use zeromq.Pipe.{Pipe, Ends}
use zeromq.Pipe.Read.{read, read_message, process_delimiter, is_readable, set_unread}
use zeromq.Ring.{Ring, IsValid, IsActive, deactivate}
use zeromq.Ring.Steps.{advance-IsValid}
use zeromq.Ring.Current.{current_pipe}
use zeromq.Ring.Dropped.{Dropped, deactivate-Dropped}
use zeromq.Ring.Visit.{
  Store, set, set_same, Touched, unchanged, Touched-here, Touched-later, for_all,
}
use zeromq.Fq.{Fq, Fetched, fetch, Answer, finish, recvpipe}

-- What `read` gives and leaves; it fails no assertion.
abbrev or_nothing : Ends → Option (Option Msg × Ends) → Option Msg × Ends
or_nothing e none = (none, e)
or_nothing e (some x) = x

abbrev pub got : Ends → Option Msg
got e = (or_nothing e (read e)).0

abbrev pub left : Ends → Ends
left e = (or_nothing e (read e)).1

Returns : Ends → Option (Option Msg × Ends) → Type 0
Returns e o = o ≡ some (or_nothing e o)

read_message-Returns :
    (ms : List Msg) (e e' : Ends) → is_readable e.pipe.state ≡ true → Returns e' (read_message ms e)
unfolding Returns read_message process_delimiter
read_message-Returns [] e e' r = refl
read_message-Returns (m ∷ ms) e e' r = elim (Bool-cases m.credential) [
  | inl c ↦
      let p : Pipe = record e.pipe { credential = m.body } in
      rw c (read_message-Returns ms (record (set_unread ms e) { pipe = p }) e' r)
  | inr c ↦ elim (Bool-cases m.delimiter) [ inl d ↦ rw (c, d, r) refl | inr d ↦ rw (c, d) refl ]
]

both_open : (a b : Bool) → not a || not b ≡ false → b ≡ true
both_open true true h = refl
both_open true false h = sym h
both_open false b h = absurd cc

pub read_returns : (e : Ends) → read e ≡ some (got e, left e)
unfolding Returns read
read_returns e = elim (Bool-cases (not e.pipe.in_active || not (is_readable e.pipe.state))) [
  | inl shut ↦ let eq : read e ≡ some (none, e) = rw shut refl in subst (Returns e) (sym eq) refl
  | inr fine ↦
      let ms = e.inpipe.content.unread in
      let eq : read e ≡ read_message ms e = rw fine refl in
      subst (Returns e) (sym eq)
        (read_message-Returns ms e e (both_open e.pipe.in_active (is_readable e.pipe.state) fine))
]

-- What the loop ends with: a message from a pipe that was active, or every active pipe has none.
abbrev pub Ended : Ring → Store → Option (ℕ × Msg) → Ring → Store → Type 0
Ended r s (some (p, m)) r' s' =
    IsActive p r
    × (got (s p) ≡ some m)
    × (s' p ≡ left (s p))
    × (current_pipe r' ≡ p)
    × (r'.current < r'.active)
    × IsValid r'
Ended r s none r' s' = ((q : ℕ) → IsActive q r → got (s q) ≡ none) × (r'.active ≡ 0) × IsValid r'

abbrev pub Tried : Ring → Store → Option Fetched → Type 0
Tried r s none = ⊥
Tried r s (some a) = Ended r s a.got a.ring a.store × Touched left r s a.store

module _ (r : Ring) (s : Store) (v : IsValid r) (h : r.current < r.active) where
  abbrev p : ℕ
  p = current_pipe r

  abbrev after : Store
  after = set p (left (s p)) s

  abbrev r' : Ring
  r' = deactivate r.current r

  d : Dropped r r'
  d = deactivate-Dropped r v h

  Ended-later :
      got (s p) ≡ none
      → (g : Option (ℕ × Msg)) (t : Ring) (s' : Store) → Ended r' after g t s'
      → Ended r s g t s'
  Ended-later empty (some (q, m)) t s' (a, ok, w, c, i, v') =
      let u = unchanged left r r' s h d q a in
      ((d.was q a).0, sym (ap got u) ∙ ok, w ∙ ap left u, c, i, v')
  Ended-later empty none t s' (f, z, v') =
      (for_all left r r' s h d (λ e. got e ≡ none) empty f, z, v')

  later : got (s p) ≡ none → (o : Option Fetched) → Tried r' after o → Tried r s o
  later empty none t = t
  later empty (some a) (e, t) =
      (Ended-later empty a.got a.ring a.store e, Touched-later left r r' s h d a.store t)

fetch-Tried :
    (n : ℕ) (r : Ring) (s : Store) → IsValid r → r.active ≡ n → Tried r s (fetch n false r s)
unfolding fetch
fetch-Tried zero r s v e = ((λ q (i, h, _). absurd (omega arith), e, v), λ q. inl refl)
fetch-Tried (suc n) r s v e =
    let i = v.inside in
    let h : r.current < r.active = omega arith in
    let p = current_pipe r in
    let d = deactivate-Dropped r v h in
    elim (Option-cases (got (s p))) [
      | inr (m, one) ↦
          rw (read_returns (s p), one)
            ((
              ((r.current, h, refl), one, set_same p (left (s p)) s, refl, h, v),
              Touched-here left r (deactivate r.current r) s h d,
            ))
      | inl empty ↦
          let less = d.one_less in
          rw (read_returns (s p), empty)
            (later r s v h empty (fetch n false (deactivate r.current r) (set p (left (s p)) s))
              (fetch-Tried n (deactivate r.current r) (set p (left (s p)) s) d.valid (omega arith)))
    ]

-- What `recvpipe` does when no message is unfinished.
abbrev pub Served : Fq → Store → Answer → Option (ℕ × Msg) → Type 0
Served f s a (some (p, m)) =
    IsActive p f.ring
    × (got (s p) ≡ some m)
    × (a.store p ≡ left (s p))
    × (a.fq.more ≡ m.more)
    × (m.more ≡ true → current_pipe a.fq.ring ≡ p)
    × (m.more ≡ false → a.fq.last_in ≡ some p)
Served f s a none =
    ((q : ℕ) → IsActive q f.ring → got (s q) ≡ none) × (a.fq.ring.active ≡ 0) × (a.fq.more ≡ false)

abbrev pub Received : Fq → Store → Option Answer → Type 0
Received f s none = ⊥
Received f s (some a) = Served f s a a.got × Touched left f.ring s a.store × IsValid a.fq.ring

finish-Received :
    (f : Fq) (s : Store)
    → f.more ≡ false
    → (g : Option (ℕ × Msg)) (r : Ring) (s' : Store) → Ended f.ring s g r s'
    → Touched left f.ring s s'
    → Received f s (some (finish f (record { got = g; ring = r; store = s' })))
finish-Received f s single none r s' (k, z, v) t = ((k, z, single), t, v)
finish-Received f s single (some (q, m)) r s' (a, ok, w, c, h, v) t = elim (Bool-cases m.more) [
  | inl part ↦ simp part ((a, ok, w, refl, λ _. c, λ e. absurd cc), t, v)
  | inr last ↦
      simp last ((a, ok, w, refl, λ e. absurd cc, λ _. refl), t, advance-IsValid r (omega arith) v)
]

-- When no message is unfinished, `recvpipe` returns. It has a part from a pipe that was active and had it,
-- and that pipe is the current one if the message has more parts, and else the last one; or it returns
-- EAGAIN, every active pipe has nothing to read, and none is active any more. No pipe is read that was not
-- active, and none more than once.
pub recvpipe-Received :
    (f : Fq) (s : Store) → IsValid f.ring → f.more ≡ false → Received f s (recvpipe f s)
unfolding recvpipe
recvpipe-Received f s v single =
    simp single
      (go (fetch f.ring.active false f.ring s) (fetch-Tried f.ring.active f.ring s v refl))
  where
    go : (o : Option Fetched) → Tried f.ring s o → Received f s (o >>= λ a. some (finish f a))
    go none t = t
    go (some a) (e, t) = finish-Received f s single a.got a.ring a.store e t
