-- ===== src/Pipe/Pair/Safety.antt =====
-- The termination of a pair: in whatever order calls and commands come, no assertion fails, no command
-- reaches an object that was deleted, and no queue is written to after it was deleted.
use mathlib.Core.Path.{subst}
use zeromq.Prelude.{
  ◌-◌, ◌≡◌, inl, inr, refl, ap, sym, ◌∙◌, Bool, true, false, Option, none, some, List, [], ◌∷◌,
  arith, ℤ, Option-cases, Bool-cases,
}
use zeromq.Pipe.{
  Pipe, Queue, Ends, State, Command, active, delimiter_received, waiting_for_delimiter,
  term_ack_sent, term_req_sent2, activate_read, activate_write, pipe_term, pipe_term_ack,
}
use zeromq.Pipe.Pair.{Pair, new_pair, ends, Call, run, process, Reach, here, next}
use zeromq.Pipe.Pair.Moves.{control, Ran}
use zeromq.Pipe.Pair.Runs.{run-Ran}
use zeromq.Pipe.Pair.Commands.{Replied, pipe_term-Replied, Left, pipe_term_ack-Left}
use zeromq.Pipe.Pair.Legal.{Agrees, Agrees-at, acked_or_not, IsLegal}
use zeromq.Pipe.Pair.Answers.{head_term, head_ack}
use zeromq.Pipe.Pair.Steps.{Step-IsLegal, new_pair-IsLegal}

-- What can go wrong for the end that is on turn, and does not.
pub record IsSafe (s : Pair) : Type 0 where
  pub answers :
      (c : Command) (rest : List Command)
      → s.inbox ≡ c ∷ rest
      → (s.alive ≡ true) × (e : Ends) × (process c (ends s.me s.inpipe s.outpipe) ≡ some e)
  pub serves :
      (c : Call) → s.alive ≡ true → (e : Ends) × (run c (ends s.me s.inpipe s.outpipe) ≡ some e)
  pub released : s.alive ≡ false → (s.inbox ≡ []) × (s.peer.has_out ≡ false)

module _ (s : Pair) (l : IsLegal s) where
  gone : s.alive ≡ false → l.mine.got_ack ≡ 1
  gone d = (subst (λ b. Agrees b s.me.state s.me.has_out l.mine) d l.agrees).1

  peer_out : (b : Bool) → s.peer_alive ≡ b → l.theirs.did_ack ≡ 1 → s.peer.has_out ≡ false
  peer_out false d h =
      (subst (λ b. Agrees b s.peer.state s.peer.has_out l.theirs) d l.peer_agrees).2
  peer_out true a h =
      elim (acked_or_not s.peer.state s.peer.has_out l.theirs (
        Agrees-at s.peer_alive s.peer.state s.peer.state s.peer.has_out l.theirs l.peer_agrees a
          refl)) [ inl z ↦ absurd (omega arith) | inr (o, _) ↦ o ]

  addressed : (c : Command) (rest : List Command) → s.inbox ≡ c ∷ rest → s.alive ≡ true
  addressed c rest ib = elim (Bool-cases s.alive) [
    | inl a ↦ a
    | inr d ↦ let h : c ∷ rest ≡ [] = sym ib ∙ l.nothing_in (gone d) in absurd cc
  ]

  at : (st : State) → s.alive ≡ true → s.me.state ≡ st → Agrees true st s.me.has_out l.mine
  at st al es = Agrees-at s.alive s.me.state st s.me.has_out l.mine l.agrees al es

  not_asked_twice :
      (rest : List Command)
      → s.alive ≡ true
      → s.inbox ≡ pipe_term ∷ rest
      → Replied s.me s.inpipe s.outpipe none
      → ⊥
  not_asked_twice rest al ib r =
      let (a', ea, er) =
        head_term (control rest) (l.theirs.asked_for - l.mine.was_asked)
          (l.theirs.did_ack - l.mine.got_ack) (ap control (sym ib) ∙ l.inbox_fits) in
      elim r [
        | inl es ↦ let (a, w, x, y) = at waiting_for_delimiter al es in omega arith
        | inr (inl es) ↦ let (a, w, x, y, z) = at term_ack_sent al es in omega arith
        | inr (inr es) ↦ let (a, w, x, y, z) = at term_req_sent2 al es in omega arith
      ]

  acked_for_a_reason :
      (rest : List Command)
      → s.alive ≡ true
      → s.inbox ≡ pipe_term_ack ∷ rest
      → Left s.me s.outpipe none
      → ⊥
  acked_for_a_reason rest al ib r =
      let (ez, b', eb, er) =
        head_ack (control rest) (l.theirs.asked_for - l.mine.was_asked)
          (l.theirs.did_ack - l.mine.got_ack) (ap control (sym ib) ∙ l.inbox_fits) in
      elim r [
        | inl es ↦ let (a, w, d, k) = at active al es in omega arith
        | inr (inl es) ↦ let (a, w, d, k) = at delimiter_received al es in omega arith
        | inr (inr es) ↦ let (a, w, d, k) = at waiting_for_delimiter al es in omega arith
      ]

  answer :
      (c : Command) (rest : List Command)
      → s.alive ≡ true
      → s.inbox ≡ c ∷ rest
      → (e : Ends) × (process c (ends s.me s.inpipe s.outpipe) ≡ some e)
  unfolding process
  answer activate_read rest al ib = (_, refl)
  answer (activate_write n) rest al ib = (_, refl)
  answer pipe_term rest al ib =
      elim (Option-cases (process pipe_term (ends s.me s.inpipe s.outpipe))) [
        | inr x ↦ x
        | inl e ↦ absurd (
            not_asked_twice rest al ib (
              subst (Replied s.me s.inpipe s.outpipe) e
                (pipe_term-Replied s.me.state s.me s.inpipe s.outpipe)))
      ]
  answer pipe_term_ack rest al ib =
      elim (Option-cases (process pipe_term_ack (ends s.me s.inpipe s.outpipe))) [
        | inr x ↦ x
        | inl e ↦ absurd (
            acked_for_a_reason rest al ib (
              subst (Left s.me s.outpipe) e
                (pipe_term_ack-Left s.me.state s.me s.inpipe s.outpipe)))
      ]

serve : (p : Pipe) (i : Queue) (r : Option Ends) → Ran p i r → (e : Ends) × (r ≡ some e)
serve p i (some e) h = (e, refl)
serve p i none h = absurd h

IsLegal-IsSafe : (s : Pair) → IsLegal s → IsSafe s
IsLegal-IsSafe s l = record {
  answers = λ c rest ib.
      (let (e, p) = answer s l c rest (addressed s l c rest ib) ib in
        (addressed s l c rest ib, e, p));
  serves = λ c al.
      serve s.me s.inpipe (run c (ends s.me s.inpipe s.outpipe))
        (run-Ran c s.me s.inpipe s.outpipe l.tidy_out);
  released = λ d. (
    l.nothing_in (gone s l d),
    peer_out s l s.peer_alive refl (let k = gone s l d in omega arith),
  );
}

Reach-IsLegal : {s t : Pair} → Reach s t → IsLegal s → IsLegal t
Reach-IsLegal here l = l
Reach-IsLegal (next r st) l = Step-IsLegal st (Reach-IsLegal r l)

-- From a new pair, in whatever order the two ends are called and get their commands: a command that
-- arrives finds its object alive and is handled without a failed assertion; so is every call of an object
-- that is alive; and when an object was deleted, no command is on its way to it, and the peer has given up
-- the queue that was deleted with it. As `turn` is a step, this holds for both ends.
pub Reach-new_pair-IsSafe : (hwm0 hwm1 : ℤ) {s : Pair} → Reach (new_pair hwm0 hwm1) s → IsSafe s
Reach-new_pair-IsSafe hwm0 hwm1 {s} r =
    IsLegal-IsSafe s (Reach-IsLegal r (new_pair-IsLegal hwm0 hwm1))
