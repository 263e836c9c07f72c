-- ===== src/Fq/Parts.antt =====
-- The parts of a message after the first, and a pipe that goes away in between.
use mathlib.Core.Path.{subst}
use zeromq.Prelude.{
  ℕ, zero, suc, ◌+◌, ◌<◌, ◌≡◌, ◌≢◌, refl, sym, ap, ◌∙◌, ◌⊎◌, inl, inr, true, Option, none, some,
  arith, ◌>>=◌, Bool-cases, Option-cases,
}
use zeromq.Msg.{Msg}
use zeromq.Array.{Holds}
use zeromq.Ring.{Ring, IsValid, remove}
use zeromq.Ring.Steps.{remove_inside}
use zeromq.Ring.Current.{current_pipe, remove_keeps, remove_strays}
use zeromq.Ring.Visit.{Store, set, set_same, set_other}
use zeromq.Fq.{Fq, Fetched, fetch, Answer, finish, recvpipe, pipe_terminated, is_last_in}
use zeromq.Fq.Receive.{got, left, read_returns}

-- The answer to a request for the next part of a message, from a store where the current pipe gives `x`:
-- the part, which is then off that pipe while the other pipes are as they were, or a failed assertion.
abbrev pub GoesOn : Fq → Store → Option Msg → Option Answer → Type 0
GoesOn f s none o = o ≡ none
GoesOn f s (some m) o =
    (a : Answer) × (o ≡ some a)
    × (a.got ≡ some (current_pipe f.ring, m))
    × (a.store (current_pipe f.ring) ≡ left (s (current_pipe f.ring)))
    × ((q : ℕ) → q ≢ current_pipe f.ring → a.store q ≡ s q)
    × (a.fq.more ≡ m.more)
    × (m.more ≡ true → current_pipe a.fq.ring ≡ current_pipe f.ring)

fetched_more : Ring → Store → Option Msg → Option Fetched
fetched_more r s none = none
fetched_more r s (some m) =
    let p = current_pipe r in
    some (record { got = some (p, m); ring = r; store = set p (left (s p)) s })

fetch_more :
    (n : ℕ) (r : Ring) (s : Store)
    → 0 < n
    → fetch n true r s ≡ fetched_more r s (got (s (current_pipe r)))
unfolding fetch fetched_more
fetch_more zero r s h = absurd (omega arith)
fetch_more (suc n) r s h = elim (Option-cases (got (s (current_pipe r)))) [
  | inl e ↦ rw (read_returns (s (current_pipe r)), e) refl
  | inr (m, e) ↦ rw (read_returns (s (current_pipe r)), e) refl
]

-- In the middle of a message `recvpipe` asks the current pipe for the next part. If the pipe has one,
-- that part is returned, it is taken off that pipe, no other pipe is changed, and the pipe stays the
-- current one if there are more. If the pipe has nothing to read, an assertion fails.
pub recvpipe-GoesOn :
    (f : Fq) (s : Store)
    → f.more ≡ true
    → f.ring.current < f.ring.active
    → GoesOn f s (got (s (current_pipe f.ring))) (recvpipe f s)
unfolding recvpipe fetched_more
recvpipe-GoesOn f s part h = simp part (
    subst (λ o. GoesOn f s (got (s (current_pipe f.ring))) (o >>= λ a. some (finish f a)))
      (sym (fetch_more f.ring.active f.ring s (omega arith))) (go (got (s (current_pipe f.ring)))))
  where
    go : (x : Option Msg) → GoesOn f s x (fetched_more f.ring s x >>= λ a. some (finish f a))
    go none = refl
    go (some m) =
        let p = current_pipe f.ring in
        let same = set_same p (left (s p)) s in
        let others = λ (q : ℕ) (ne : q ≢ p). set_other p q (left (s p)) s ne in
        elim (Bool-cases m.more) [
          | inl more ↦ simp more (_, refl, refl, same, others, refl, λ _. refl)
          | inr last ↦ simp last (_, refl, refl, same, others, refl, λ e. absurd cc)
        ]

pipe_terminated-ring : (p : ℕ) (s : Store) (f : Fq) → (pipe_terminated p s f).ring ≡ remove p f.ring
unfolding pipe_terminated
pipe_terminated-ring p s f = elim (Bool-cases (is_last_in p f.last_in)) [
  | inl l ↦ rw l refl
  | inr o ↦ rw o refl
]

pipe_terminated-more : (p : ℕ) (s : Store) (f : Fq) → (pipe_terminated p s f).more ≡ f.more
unfolding pipe_terminated
pipe_terminated-more p s f = elim (Bool-cases (is_last_in p f.last_in)) [
  | inl l ↦ rw l refl
  | inr o ↦ rw o refl
]

module _ (p : ℕ) (s : Store) (f : Fq) (h : Holds p f.ring.pipes) (v : IsValid f.ring)
    (some_active : f.ring.current < f.ring.active) (other : p ≢ current_pipe f.ring)
    (part : f.more ≡ true) where
  abbrev f' : Fq
  f' = pipe_terminated p s f

  -- Another pipe than the current one has gone, in the middle of a message. If it was at the front, or
  -- behind the current one, or the current one was not the last active one, the current pipe is the same.
  pub pipe_terminated_keeps_current :
      ((f.ring.pipes.array_index p ≡ 0) ⊎ (f.ring.current < f.ring.pipes.array_index p))
        ⊎ (f.ring.current + 1 < f.ring.active)
      → (current_pipe f'.ring ≡ current_pipe f.ring) × (f'.more ≡ true)
  pipe_terminated_keeps_current c = (
    ap current_pipe (pipe_terminated-ring p s f) ∙ remove_keeps p f.ring h v some_active other c,
    pipe_terminated-more p s f ∙ part,
  )

  -- If the current one was the last active one and the other was before it but not at the front, the next
  -- part is asked of another pipe than the one that gave the parts before: what that pipe has is returned,
  -- and if it has nothing, an assertion fails.
  recvpipe_strays :
      0 < f.ring.pipes.array_index p
      → f.ring.pipes.array_index p < f.ring.current
      → f.ring.current + 1 ≡ f.ring.active
      → (current_pipe f'.ring ≢ current_pipe f.ring)
        × GoesOn f' s (got (s (current_pipe f'.ring))) (recvpipe f' s)
  recvpipe_strays above below last =
      let eq = pipe_terminated-ring p s f in
      (
        λ e.
            remove_strays p f.ring h v some_active other above below last
              (sym (ap current_pipe eq) ∙ e),
        recvpipe-GoesOn f' s (pipe_terminated-more p s f ∙ part)
            (subst (λ r. r.current < r.active) (sym eq) (remove_inside p f.ring below some_active)),
      )
