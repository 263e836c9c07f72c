-- ===== src/Pipe/Pair/Answers.antt =====
-- The commands that a pipe handles keep the invariant of a pair.
use mathlib.Core.List.{tail-eq_of_cons-eq}
use zeromq.Prelude.{
  ℕ, zero, suc, ◌-◌, ◌≤◌, ◌≡◌, ◌⊎◌, inl, inr, refl, ap, sym, ◌∙◌, true, false, List, [], ◌∷◌, ◌++◌,
  arith,
}
use zeromq.Pipe
use zeromq.Pipe.{
  Pipe, Queue, Ends, State, Command, active, delimiter_received, waiting_for_delimiter,
  term_ack_sent, term_req_sent1, term_req_sent2, activate_read, activate_write, pipe_term,
  pipe_term_ack,
}
use zeromq.Pipe.Pair.{Pair, update}
use zeromq.Pipe.Pair.Moves.{control, closed, Quiet}
use zeromq.Pipe.Pair.Legal.{Past, Agrees, IsLegal, line, sends_none, sends_ack, out-Quiet}

-- The first of the commands on their way.
pub head_term :
    (cs : List Command) (a b : ℕ)
    → pipe_term ∷ cs ≡ line a b
    → (a' : ℕ) × (a ≡ suc a') × (cs ≡ line a' b)
head_term cs (suc a) b h = (a, refl, tail-eq_of_cons-eq h)
head_term cs zero zero h = absurd cc
head_term cs zero (suc b) h = absurd cc

pub head_ack :
    (cs : List Command) (a b : ℕ)
    → pipe_term_ack ∷ cs ≡ line a b
    → (a ≡ 0) × (b' : ℕ) × (b ≡ suc b') × (cs ≡ line 0 b')
head_ack cs (suc a) b h = absurd cc
head_ack cs zero zero h = absurd cc
head_ack cs zero (suc b) h = (refl, b, refl, tail-eq_of_cons-eq h)

-- A command that is none of the termination is taken from the mailbox.
pub skip-IsLegal :
    (s : Pair) (c : Command) (rest : List Command)
    → s.inbox ≡ c ∷ rest
    → control (c ∷ rest) ≡ control rest
    → closed (c ∷ rest) ≡ closed rest
    → IsLegal s
    → IsLegal (record s { inbox = rest })
skip-IsLegal s c rest e k q l = record {
  mine = l.mine;
  theirs = l.theirs;
  agrees = l.agrees;
  peer_agrees = l.peer_agrees;
  follows = l.follows;
  followed = l.followed;
  inbox_fits = sym k ∙ (ap control (sym e) ∙ l.inbox_fits);
  outbox_fits = l.outbox_fits;
  tidy_in = l.tidy_in;
  tidy_out = l.tidy_out;
  quiet_in = sym q ∙ (ap closed (sym e) ∙ l.quiet_in);
  quiet_out = l.quiet_out;
  nothing_in = λ g. absurd (cons_not_nil (sym e ∙ l.nothing_in g));
  nothing_out = l.nothing_out;
}
  where
    cons_not_nil : c ∷ rest ≡ [] → ⊥
    cons_not_nil h = cc

-- What is sent in answer to `pipe_term`, with the number of acknowledgements after it.
abbrev Answer : ℕ → List Command → Type 0
Answer d sent = ((d ≡ 0) × (sent ≡ [])) ⊎ ((d ≡ 1) × (sent ≡ pipe_term_ack ∷ []))

pub term-IsLegal :
    (s : Pair) (e : Ends) (rest : List Command) (d : ℕ) (l : IsLegal s)
    → s.alive ≡ true
    → s.inbox ≡ pipe_term ∷ rest
    → l.mine.was_asked ≡ 0
    → l.mine.did_ack ≡ 0
    → l.mine.got_ack ≡ 0
    → Agrees true e.pipe.state e.pipe.has_out (record l.mine { was_asked = 1; did_ack = d })
    → Answer d e.sent
    → Quiet s.me.state s.me.has_out e.sent
    → e.inpipe ≡ s.inpipe
    → e.outpipe ≡ s.outpipe
    → IsLegal (record (update s e) { inbox = rest; alive = true })
term-IsLegal s e rest d l al ib w0 d0 k0 ag ans q ei eo =
    let (a', ea, er) =
      head_term (control rest) (l.theirs.asked_for - l.mine.was_asked)
        (l.theirs.did_ack - l.mine.got_ack) (ap control (sym ib) ∙ l.inbox_fits) in
    let g : Past = record l.mine { was_asked = 1; did_ack = d } in
    let small : d ≤ 1 = small_answer ans in
    record {
      mine = g;
      theirs = l.theirs;
      agrees = ag;
      peer_agrees = l.peer_agrees;
      follows = record {
        once = l.follows.once;
        asked_first = l.follows.asked_first;
        acked_once = small;
        acked_first = omega arith;
        in_order = l.follows.in_order;
        reason = omega arith;
      };
      followed = record {
        once = l.followed.once;
        asked_first = omega arith;
        acked_once = l.followed.acked_once;
        acked_first = l.followed.acked_first;
        in_order = λ h. absurd (omega (arith, h));
        reason = omega arith;
      };
      inbox_fits = er ∙ ap (λ n. line n (l.theirs.did_ack - l.mine.got_ack)) (omega arith);
      outbox_fits = answered ans;
      tidy_in = rw ei l.tidy_in;
      tidy_out = rw eo l.tidy_out;
      quiet_in = ap closed (sym ib) ∙ l.quiet_in;
      quiet_out = (out-Quiet s e al l q).0;
      nothing_in = λ h. absurd (omega (arith, h));
      nothing_out = (out-Quiet s e al l q).1;
    }
  where
    small_answer : Answer d e.sent → d ≤ 1
    small_answer (inl (z, _)) = omega arith
    small_answer (inr (z, _)) = omega arith

    answered :
        Answer d e.sent
        → control (s.outbox ++ e.sent)
          ≡ line (l.mine.asked_for - l.theirs.was_asked) (d - l.theirs.got_ack)
    answered (inl (z, n)) =
        sends_none s.outbox e.sent _ _ _ _ l.outbox_fits (ap control n) refl (omega arith)
    answered (inr (z, n)) =
        sends_ack s.outbox e.sent _ _ _ _ l.outbox_fits (ap control n) (omega arith) refl
          (omega arith)

closed_ack : (rest : List Command) → closed (pipe_term_ack ∷ rest) ≡ true → rest ≡ []
closed_ack [] h = refl
closed_ack (x ∷ rest) h = absurd cc

-- What is sent on `pipe_term_ack`, with the number of acknowledgements before it.
abbrev Farewells : ℕ → List Command → Type 0
Farewells d sent = ((d ≡ 1) × (sent ≡ [])) ⊎ ((d ≡ 0) × (sent ≡ pipe_term_ack ∷ []))

pub ack-IsLegal :
    (s : Pair) (e : Ends) (rest : List Command) (l : IsLegal s)
    → s.alive ≡ true
    → s.inbox ≡ pipe_term_ack ∷ rest
    → l.mine.got_ack ≡ 0
    → e.pipe.has_out ≡ false
    → Farewells l.mine.did_ack e.sent
    → Quiet s.me.state s.me.has_out e.sent
    → e.inpipe ≡ Pipe.new_queue
    → e.outpipe ≡ s.outpipe
    → IsLegal (record (update s e) { inbox = rest; alive = false })
ack-IsLegal s e rest l al ib k0 out ans q ei eo =
    let (ez, b', eb, er) =
      head_ack (control rest) (l.theirs.asked_for - l.mine.was_asked)
        (l.theirs.did_ack - l.mine.got_ack) (ap control (sym ib) ∙ l.inbox_fits) in
    let g : Past = record l.mine { did_ack = 1; got_ack = 1 } in
    let last : b' ≡ l.theirs.did_ack - 1 = omega arith in
    record {
      mine = g;
      theirs = l.theirs;
      agrees = (refl, refl, out);
      peer_agrees = l.peer_agrees;
      follows = record {
        once = l.follows.once;
        asked_first = l.follows.asked_first;
        acked_once = omega arith;
        acked_first = omega arith;
        in_order = l.follows.in_order;
        reason = omega arith;
      };
      followed = record {
        once = l.followed.once;
        asked_first = l.followed.asked_first;
        acked_once = l.followed.acked_once;
        acked_first = omega arith;
        in_order = λ h. omega arith;
        reason = omega arith;
      };
      inbox_fits = er ∙ (λ i. line (sym ez i) (last i));
      outbox_fits = answered ans;
      tidy_in = rw ei refl;
      tidy_out = rw eo l.tidy_out;
      quiet_in = rw (closed_ack rest (ap closed (sym ib) ∙ l.quiet_in)) refl;
      quiet_out = (out-Quiet s e al l q).0;
      nothing_in = λ h. closed_ack rest (ap closed (sym ib) ∙ l.quiet_in);
      nothing_out = (out-Quiet s e al l q).1;
    }
  where
    answered :
        Farewells l.mine.did_ack e.sent
        → control (s.outbox ++ e.sent)
          ≡ line (l.mine.asked_for - l.theirs.was_asked) (1 - l.theirs.got_ack)
    answered (inl (z, n)) =
        sends_none s.outbox e.sent _ _ _ _ l.outbox_fits (ap control n) refl (omega arith)
    answered (inr (z, n)) =
        sends_ack s.outbox e.sent _ _ _ _ l.outbox_fits (ap control n) (omega arith) refl
          (omega arith)
