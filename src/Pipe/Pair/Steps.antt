-- ===== src/Pipe/Pair/Steps.antt =====
-- Every call and every command keeps the invariant of a pair.
use mathlib.Core.Path.{subst}
use zeromq.Prelude.{◌≡◌, inl, inr, refl, ◌∙◌, true, false, some, List, ◌∷◌, arith, ℤ}
use zeromq.Pipe
use zeromq.Pipe.{
  Pipe, Queue, Ends, State, Command, active, delimiter_received, waiting_for_delimiter,
  term_ack_sent, term_req_sent1, term_req_sent2, activate_read, activate_write, pipe_term,
  pipe_term_ack,
}
use zeromq.Pipe.Pair.{Pair, flip, new_pair, update, Step, call_step, command_step, turn}
use zeromq.Pipe.Pair.Moves.{control, closed, Ran}
use zeromq.Pipe.Pair.Runs.{run-Ran}
use zeromq.Pipe.Pair.Commands.{
  activate_read-Ran, activate_write-Ran, waits, acks, crosses, Replied, pipe_term-Replied,
  acked_before, acks_now, Left, pipe_term_ack-Left,
}
use zeromq.Pipe.Pair.Legal.{Past, Agrees-at, Follows, IsLegal, call-IsLegal}
use zeromq.Pipe.Pair.Answers.{skip-IsLegal, term-IsLegal, ack-IsLegal}

flip-IsLegal : (s : Pair) → IsLegal s → IsLegal (flip s)
flip-IsLegal s l = record {
  mine = l.theirs;
  theirs = l.mine;
  agrees = l.peer_agrees;
  peer_agrees = l.agrees;
  follows = l.followed;
  followed = l.follows;
  inbox_fits = l.outbox_fits;
  outbox_fits = l.inbox_fits;
  tidy_in = l.tidy_out;
  tidy_out = l.tidy_in;
  quiet_in = l.quiet_out;
  quiet_out = l.quiet_in;
  nothing_in = l.nothing_out;
  nothing_out = l.nothing_in;
}

abbrev nothing_yet : Past
nothing_yet = record { asked_for = 0; was_asked = 0; did_ack = 0; got_ack = 0 }

nothing_yet-Follows : Follows nothing_yet nothing_yet
nothing_yet-Follows = record {
  once = omega arith;
  asked_first = omega arith;
  acked_once = omega arith;
  acked_first = omega arith;
  in_order = λ h. refl;
  reason = omega arith;
}

pub new_pair-IsLegal : (hwm0 hwm1 : ℤ) → IsLegal (new_pair hwm0 hwm1)
unfolding new_pair Pipe.new
new_pair-IsLegal hwm0 hwm1 = record {
  mine = nothing_yet;
  theirs = nothing_yet;
  agrees = (refl, refl, refl, refl);
  peer_agrees = (refl, refl, refl, refl);
  follows = nothing_yet-Follows;
  followed = nothing_yet-Follows;
  inbox_fits = refl;
  outbox_fits = refl;
  tidy_in = refl;
  tidy_out = refl;
  quiet_in = refl;
  quiet_out = refl;
  nothing_in = λ h. refl;
  nothing_out = λ h. refl;
}

module _ (s : Pair) (e : Ends) (rest : List Command) (al : s.alive ≡ true) (l : IsLegal s) where
  Replied-IsLegal :
      s.inbox ≡ pipe_term ∷ rest
      → Replied s.me s.inpipe s.outpipe (some e)
      → IsLegal (record (update s e) { inbox = rest; alive = true })
  Replied-IsLegal ib (waits es es' eo ec, qi, qo) =
      let (a0, w0, d0, k0) =
        Agrees-at s.alive s.me.state active s.me.has_out l.mine l.agrees al es in
      term-IsLegal s e rest 0 l al ib w0 d0 k0 (rw es' (a0, refl, refl, k0)) (inl (refl, ec))
        (rw ec refl, λ _ _. ec) qi qo
  Replied-IsLegal ib (acks (inl es) es' eo ec, qi, qo) =
      let (a0, w0, d0, k0) =
        Agrees-at s.alive s.me.state active s.me.has_out l.mine l.agrees al es in
      term-IsLegal s e rest 1 l al ib w0 d0 k0 (rw es' (a0, refl, refl, k0, eo)) (inr (refl, ec))
        (rw ec refl, λ _ v. absurd (ground (arith, es, v))) qi qo
  Replied-IsLegal ib (acks (inr es) es' eo ec, qi, qo) =
      let (a0, w0, d0, k0) =
        Agrees-at s.alive s.me.state delimiter_received s.me.has_out l.mine l.agrees al es in
      term-IsLegal s e rest 1 l al ib w0 d0 k0 (rw es' (a0, refl, refl, k0, eo)) (inr (refl, ec))
        (rw ec refl, λ _ v. absurd (ground (arith, es, v))) qi qo
  Replied-IsLegal ib (crosses es es' eo ec, qi, qo) =
      let (a1, w0, d0, k0) =
        Agrees-at s.alive s.me.state term_req_sent1 s.me.has_out l.mine l.agrees al es in
      term-IsLegal s e rest 1 l al ib w0 d0 k0 (rw es' (a1, refl, refl, k0, eo)) (inr (refl, ec))
        (rw ec refl, λ _ v. absurd (ground (arith, es, v))) qi qo

  Left-IsLegal :
      s.inbox ≡ pipe_term_ack ∷ rest
      → Left s.me s.outpipe (some e)
      → IsLegal (record (update s e) { inbox = rest; alive = false })
  Left-IsLegal ib (acked_before (inl es) eo ec, qi, qo) =
      let (a0, w1, d1, k0, o) =
        Agrees-at s.alive s.me.state term_ack_sent s.me.has_out l.mine l.agrees al es in
      ack-IsLegal s e rest l al ib k0 (eo ∙ o) (inl (d1, ec)) (rw ec refl, λ _ _. ec) qi qo
  Left-IsLegal ib (acked_before (inr es) eo ec, qi, qo) =
      let (a1, w1, d1, k0, o) =
        Agrees-at s.alive s.me.state term_req_sent2 s.me.has_out l.mine l.agrees al es in
      ack-IsLegal s e rest l al ib k0 (eo ∙ o) (inl (d1, ec)) (rw ec refl, λ _ _. ec) qi qo
  Left-IsLegal ib (acks_now es eo ec, qi, qo) =
      let (a1, w0, d0, k0) =
        Agrees-at s.alive s.me.state term_req_sent1 s.me.has_out l.mine l.agrees al es in
      ack-IsLegal s e rest l al ib k0 eo (inr (d0, ec))
        (rw ec refl, λ _ v. absurd (ground (arith, es, v))) qi qo

  -- A command that leaves the termination as it is.
  told-IsLegal :
      (c : Command)
      → s.inbox ≡ c ∷ rest
      → control (c ∷ rest) ≡ control rest
      → closed (c ∷ rest) ≡ closed rest
      → Ran s.me s.inpipe (some e)
      → IsLegal (record (update s e) { inbox = rest; alive = true })
  told-IsLegal c ib k q r =
      subst (λ b. IsLegal (record (update s e) { inbox = rest; alive = b })) al
        (call-IsLegal (record s { inbox = rest }) e al (skip-IsLegal s c rest ib k q l) r)

pub Step-IsLegal : {s t : Pair} → Step s t → IsLegal s → IsLegal t
Step-IsLegal {s} (call_step c e al r) l =
    call-IsLegal s e al l
      (subst (Ran s.me s.inpipe) r (run-Ran c s.me s.inpipe s.outpipe l.tidy_out))
Step-IsLegal {s} (command_step activate_read rest e al ib r) l =
    told-IsLegal s e rest al l activate_read ib refl refl
      (subst (Ran s.me s.inpipe) r (activate_read-Ran s.me s.inpipe s.outpipe l.tidy_out))
Step-IsLegal {s} (command_step (activate_write n) rest e al ib r) l =
    told-IsLegal s e rest al l (activate_write n) ib refl refl
      (subst (Ran s.me s.inpipe) r (activate_write-Ran n s.me s.inpipe s.outpipe l.tidy_out))
Step-IsLegal {s} (command_step pipe_term rest e al ib r) l = Replied-IsLegal s e rest al l ib (
    subst (Replied s.me s.inpipe s.outpipe) r
      (pipe_term-Replied s.me.state s.me s.inpipe s.outpipe))
Step-IsLegal {s} (command_step pipe_term_ack rest e al ib r) l =
    Left-IsLegal s e rest al l ib
      (subst (Left s.me s.outpipe) r (pipe_term_ack-Left s.me.state s.me s.inpipe s.outpipe))
Step-IsLegal {s} turn l = flip-IsLegal s l
