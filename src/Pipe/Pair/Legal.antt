-- ===== src/Pipe/Pair/Legal.antt =====
-- The invariant of a pair: how the states of the two ends, the commands on their way and the queues fit.
-- It says of each end which requests and acknowledgements it has sent and received.
use zeromq.Prelude.{
  ℕ, zero, suc, ◌+◌, ◌-◌, ◌≤◌, ◌≡◌, ◌⊎◌, inl, inr, refl, ap, ◌∙◌, Bool, true, false, some, List, [],
  ◌∷◌, ◌++◌, arith,
}
use mathlib.Core.List.{append-nil, tail-eq_of_cons-eq}
use zeromq.Pipe.{
  Ends, State, Command, active, delimiter_received, waiting_for_delimiter, term_ack_sent,
  term_req_sent1, term_req_sent2, activate_read, activate_write, pipe_term, pipe_term_ack,
}
use zeromq.Pipe.Pair.{Pair, update}
use zeromq.Pipe.Pair.Moves.{
  control, same, got_delimiter, asked, acked, no_ack, closed, is_over, Quiet, IsTidy, Ran,
}

-- How many requests and acknowledgements an end has sent and received.
pub record Past : Type 0 where
  pub asked_for : ℕ
  pub was_asked : ℕ
  pub did_ack : ℕ
  pub got_ack : ℕ

-- What the state says of the past.
abbrev pub Agrees : Bool → State → Bool → Past → Type 0
Agrees false st out g = (g.did_ack ≡ 1) × (g.got_ack ≡ 1) × (out ≡ false)
Agrees true active out g = (g.asked_for ≡ 0) × (g.was_asked ≡ 0) × (g.did_ack ≡ 0) × (g.got_ack ≡ 0)
Agrees true delimiter_received out g =
    (g.asked_for ≡ 0) × (g.was_asked ≡ 0) × (g.did_ack ≡ 0) × (g.got_ack ≡ 0)
Agrees true waiting_for_delimiter out g =
    (g.asked_for ≡ 0) × (g.was_asked ≡ 1) × (g.did_ack ≡ 0) × (g.got_ack ≡ 0)
Agrees true term_ack_sent out g =
    (g.asked_for ≡ 0) × (g.was_asked ≡ 1) × (g.did_ack ≡ 1) × (g.got_ack ≡ 0) × (out ≡ false)
Agrees true term_req_sent1 out g =
    (g.asked_for ≡ 1) × (g.was_asked ≡ 0) × (g.did_ack ≡ 0) × (g.got_ack ≡ 0)
Agrees true term_req_sent2 out g =
    (g.asked_for ≡ 1) × (g.was_asked ≡ 1) × (g.did_ack ≡ 1) × (g.got_ack ≡ 0) × (out ≡ false)

abbrev pub copies : ℕ → Command → List Command
copies zero c = []
copies (suc n) c = c ∷ copies n c

-- What is on its way: a request before an acknowledgement.
abbrev pub OnWay : List Command → Past → Past → Type 0
OnWay cs from to =
    control cs
    ≡ copies (from.asked_for - to.was_asked) pipe_term
      ++ copies (from.did_ack - to.got_ack) pipe_term_ack

-- How the two pasts fit, seen from one end.
pub record Follows (g h : Past) : Type 0 where
  pub once : g.asked_for ≤ 1
  pub asked_first : h.was_asked ≤ g.asked_for
  pub acked_once : g.did_ack ≤ 1
  pub acked_first : h.got_ack ≤ g.did_ack
  pub in_order : h.got_ack ≡ 1 → h.was_asked ≡ g.asked_for
  pub reason : g.did_ack ≤ h.asked_for + h.did_ack

pub record IsLegal (s : Pair) : Type 0 where
  pub mine : Past
  pub theirs : Past
  pub agrees : Agrees s.alive s.me.state s.me.has_out mine
  pub peer_agrees : Agrees s.peer_alive s.peer.state s.peer.has_out theirs
  pub follows : Follows mine theirs
  pub followed : Follows theirs mine
  pub inbox_fits : OnWay s.inbox theirs mine
  pub outbox_fits : OnWay s.outbox mine theirs
  pub tidy_in : IsTidy s.inpipe
  pub tidy_out : IsTidy s.outpipe
  pub quiet_in : closed s.inbox ≡ true
  pub quiet_out : closed s.outbox ≡ true
  pub nothing_in : mine.got_ack ≡ 1 → s.inbox ≡ []
  pub nothing_out : theirs.got_ack ≡ 1 → s.outbox ≡ []

pub control-append : (xs ys : List Command) → control (xs ++ ys) ≡ control xs ++ control ys
control-append [] ys = refl
control-append (activate_read ∷ xs) ys = control-append xs ys
control-append (activate_write n ∷ xs) ys = control-append xs ys
control-append (pipe_term ∷ xs) ys = ap (λ l. pipe_term ∷ l) (control-append xs ys)
control-append (pipe_term_ack ∷ xs) ys = ap (λ l. pipe_term_ack ∷ l) (control-append xs ys)

-- So many requests, and then so many acknowledgements.
abbrev pub line : ℕ → ℕ → List Command
line a b = copies a pipe_term ++ copies b pipe_term_ack

module _ (xs sent : List Command) (a b a' b' : ℕ) (h : control xs ≡ line a b) where
  pub sends_none : control sent ≡ [] → a ≡ a' → b ≡ b' → control (xs ++ sent) ≡ line a' b'
  sends_none e ea eb = rw (control-append xs sent, h, e, ea, eb) (append-nil (line a' b'))

  pub sends_term :
      control sent ≡ pipe_term ∷ []
      → a ≡ 0
      → b ≡ 0
      → a' ≡ 1
      → b' ≡ 0
      → control (xs ++ sent) ≡ line a' b'
  sends_term e ea eb ea' eb' = rw (control-append xs sent, h, e, ea, eb, ea', eb') refl

  pub sends_ack :
      control sent ≡ pipe_term_ack ∷ []
      → b ≡ 0
      → a ≡ a'
      → b' ≡ 1
      → control (xs ++ sent) ≡ line a' b'
  sends_ack e eb ea eb' =
      rw (control-append xs sent, h, e, eb, ea, eb')
        (ap (λ l. l ++ pipe_term_ack ∷ []) (append-nil (copies a' pipe_term)))

pub Agrees-at :
    (al : Bool) (st st' : State) (out : Bool) (g : Past)
    → Agrees al st out g
    → al ≡ true
    → st ≡ st'
    → Agrees true st' out g
Agrees-at al st st' out g h ea es = rw (← ea, ← es) h

no_ack_in : (cs : List Command) (a : ℕ) → control cs ≡ line a 0 → no_ack cs ≡ true
no_ack_in [] a h = refl
no_ack_in (activate_read ∷ cs) a h = no_ack_in cs a h
no_ack_in (activate_write n ∷ cs) a h = no_ack_in cs a h
no_ack_in (pipe_term ∷ cs) zero h = absurd cc
no_ack_in (pipe_term ∷ cs) (suc a) h = no_ack_in cs a (tail-eq_of_cons-eq h)
no_ack_in (pipe_term_ack ∷ cs) zero h = absurd cc
no_ack_in (pipe_term_ack ∷ cs) (suc a) h = absurd cc

closed-append :
    (xs ys : List Command) → no_ack xs ≡ true → closed ys ≡ true → closed (xs ++ ys) ≡ true
closed-append [] ys h k = k
closed-append (activate_read ∷ xs) ys h k = closed-append xs ys h k
closed-append (activate_write n ∷ xs) ys h k = closed-append xs ys h k
closed-append (pipe_term ∷ xs) ys h k = closed-append xs ys h k
closed-append (pipe_term_ack ∷ xs) ys h k = absurd cc

-- Either nothing was acknowledged, or the end is quiet.
pub acked_or_not :
    (st : State) (out : Bool) (g : Past)
    → Agrees true st out g
    → (g.did_ack ≡ 0) ⊎ ((out ≡ false) × (is_over st ≡ true))
acked_or_not active out g (_, _, d, _) = inl d
acked_or_not delimiter_received out g (_, _, d, _) = inl d
acked_or_not waiting_for_delimiter out g (_, _, d, _) = inl d
acked_or_not term_ack_sent out g (_, _, _, _, o) = inr (o, refl)
acked_or_not term_req_sent1 out g (_, _, d, _) = inl d
acked_or_not term_req_sent2 out g (_, _, _, _, o) = inr (o, refl)

pub out-Quiet :
    (s : Pair) (e : Ends)
    → s.alive ≡ true
    → (l : IsLegal s) → Quiet s.me.state s.me.has_out e.sent
    → (closed (s.outbox ++ e.sent) ≡ true) × (l.theirs.got_ack ≡ 1 → s.outbox ++ e.sent ≡ [])
out-Quiet s e al l (c, q) =
    elim (acked_or_not s.me.state s.me.has_out l.mine
      (Agrees-at s.alive s.me.state s.me.state s.me.has_out l.mine l.agrees al refl)) [
        | inl d ↦
            let zero_acks : l.mine.did_ack - l.theirs.got_ack ≡ 0 = omega arith in
            let fits : control s.outbox ≡ line (l.mine.asked_for - l.theirs.was_asked) 0 =
              l.outbox_fits ∙ ap (line (l.mine.asked_for - l.theirs.was_asked)) zero_acks in
            (
              closed-append s.outbox e.sent (no_ack_in s.outbox _ fits) c,
              λ h. absurd (omega (arith, h)),
            )
        | inr (o, v) ↦
            let silent : e.sent ≡ [] = q o v in
            rw (silent, append-nil s.outbox) (l.quiet_out, l.nothing_out)
      ]

pub call-IsLegal :
    (s : Pair) (e : Ends)
    → s.alive ≡ true
    → IsLegal s
    → Ran s.me s.inpipe (some e)
    → IsLegal (update s e)
call-IsLegal s e al l (same es eo ec, t, i, q) = record {
  mine = l.mine;
  theirs = l.theirs;
  agrees = rw (es, eo) l.agrees;
  peer_agrees = l.peer_agrees;
  follows = l.follows;
  followed = l.followed;
  inbox_fits = l.inbox_fits;
  outbox_fits = sends_none s.outbox e.sent _ _ _ _ l.outbox_fits ec refl refl;
  tidy_in = rw i l.tidy_in;
  tidy_out = t;
  quiet_in = l.quiet_in;
  quiet_out = (out-Quiet s e al l q).0;
  nothing_in = l.nothing_in;
  nothing_out = (out-Quiet s e al l q).1;
}
call-IsLegal s e al l (got_delimiter es es' eo ec, t, i, q) =
    let zeros = Agrees-at s.alive s.me.state active s.me.has_out l.mine l.agrees al es in
    record {
      mine = l.mine;
      theirs = l.theirs;
      agrees = rw (al, es') zeros;
      peer_agrees = l.peer_agrees;
      follows = l.follows;
      followed = l.followed;
      inbox_fits = l.inbox_fits;
      outbox_fits = sends_none s.outbox e.sent _ _ _ _ l.outbox_fits ec refl refl;
      tidy_in = rw i l.tidy_in;
      tidy_out = t;
      quiet_in = l.quiet_in;
      quiet_out = (out-Quiet s e al l q).0;
      nothing_in = l.nothing_in;
      nothing_out = (out-Quiet s e al l q).1;
    }
call-IsLegal s e al l (asked es es' eo ec, t, i, q) =
    let (a0, w0, d0, k0) = zeros es in
    let g : Past = record l.mine { asked_for = 1 } in
    record {
      mine = g;
      theirs = l.theirs;
      agrees = rw (al, es') (refl, w0, d0, k0);
      peer_agrees = l.peer_agrees;
      follows = record {
        once = omega arith;
        asked_first = omega arith;
        acked_once = l.follows.acked_once;
        acked_first = l.follows.acked_first;
        in_order = λ h. absurd (omega (arith, h));
        reason = l.follows.reason;
      };
      followed = record {
        once = l.followed.once;
        asked_first = l.followed.asked_first;
        acked_once = l.followed.acked_once;
        acked_first = l.followed.acked_first;
        in_order = l.followed.in_order;
        reason = omega arith;
      };
      inbox_fits = l.inbox_fits;
      outbox_fits =
          sends_term s.outbox e.sent _ _ _ _ l.outbox_fits ec (omega arith) (omega arith)
            (omega arith) (omega arith);
      tidy_in = rw i l.tidy_in;
      tidy_out = t;
      quiet_in = l.quiet_in;
      quiet_out = (out-Quiet s e al l q).0;
      nothing_in = l.nothing_in;
      nothing_out = (out-Quiet s e al l q).1;
    }
  where
    zeros :
        (s.me.state ≡ active) ⊎ (s.me.state ≡ delimiter_received)
        → Agrees true active s.me.has_out l.mine
    zeros (inl es) = Agrees-at s.alive s.me.state active s.me.has_out l.mine l.agrees al es
    zeros (inr es) =
        Agrees-at s.alive s.me.state delimiter_received s.me.has_out l.mine l.agrees al es
call-IsLegal s e al l (acked es es' eo ec, t, i, q) =
    let (a0, w1, d0, k0) =
      Agrees-at s.alive s.me.state waiting_for_delimiter s.me.has_out l.mine l.agrees al es in
    let g : Past = record l.mine { did_ack = 1 } in
    record {
      mine = g;
      theirs = l.theirs;
      agrees = rw (al, es', eo) (a0, w1, refl, k0, refl);
      peer_agrees = l.peer_agrees;
      follows = record {
        once = l.follows.once;
        asked_first = l.follows.asked_first;
        acked_once = omega arith;
        acked_first = omega arith;
        in_order = λ h. absurd (omega (arith, h));
        reason = omega arith;
      };
      followed = record {
        once = l.followed.once;
        asked_first = l.followed.asked_first;
        acked_once = l.followed.acked_once;
        acked_first = l.followed.acked_first;
        in_order = l.followed.in_order;
        reason = omega arith;
      };
      inbox_fits = l.inbox_fits;
      outbox_fits =
          sends_ack s.outbox e.sent _ _ _ _ l.outbox_fits ec (omega arith) refl (omega arith);
      tidy_in = rw i l.tidy_in;
      tidy_out = t;
      quiet_in = l.quiet_in;
      quiet_out = (out-Quiet s e al l q).0;
      nothing_in = l.nothing_in;
      nothing_out = (out-Quiet s e al l q).1;
    }
