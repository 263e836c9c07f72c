-- ===== src/Pipe/Pair/Runs.antt =====
-- `terminate`, and all calls of the owner: none of their assertions fails.
use mathlib.Core.Path.{subst}
use zeromq.Prelude.{
  Bool, true, false, not, ◌||◌, ◌≡◌, inl, inr, refl, ap, sym, some, List, [], ◌∷◌, ◌++◌, arith,
  Bool-cases,
}
use zeromq.Msg.{Msg}
use zeromq.Ypipe.Content.{Content}
use zeromq.Pipe.{
  Pipe, Queue, Ends, State, Command, active, delimiter_received, waiting_for_delimiter,
  term_ack_sent, term_req_sent1, term_req_sent2, activate_read, activate_write, pipe_term,
  pipe_term_ack, send, set_state,
}
use zeromq.Pipe.Read.{acknowledge}
use zeromq.Pipe.Write.{set_out, set_out_active, rollback, flush_queue, flush, is_term_ack_sent, put}
use zeromq.Pipe.Terminate.{set_delay, delimiter, close_out, terminate}
use zeromq.Pipe.Pair.{
  ends, Call, to_check_read, to_read, to_rollback, to_flush, to_set_nodelay, to_write, to_terminate,
  run,
}
use zeromq.Pipe.Pair.Moves.{control, IsTidy, no_ack, closed, is_over, Ran, same, asked, acked}
use zeromq.Pipe.Pair.Reading.{check_read-Ran, read-Ran}
use zeromq.Pipe.Pair.Writing.{write-Ran, rollback-Ran, flush_queue-IsTidy, flush-Ran}

control_told : (cs : List Command) → control (cs ++ activate_read ∷ []) ≡ control cs
control_told [] = refl
control_told (activate_read ∷ cs) = control_told cs
control_told (activate_write n ∷ cs) = control_told cs
control_told (pipe_term ∷ cs) = ap (λ l. pipe_term ∷ l) (control_told cs)
control_told (pipe_term_ack ∷ cs) = ap (λ l. pipe_term_ack ∷ l) (control_told cs)

closed_told : (cs : List Command) → no_ack cs ≡ true → closed (cs ++ activate_read ∷ []) ≡ true
closed_told [] h = refl
closed_told (activate_read ∷ cs) h = closed_told cs h
closed_told (activate_write n ∷ cs) h = closed_told cs h
closed_told (pipe_term ∷ cs) h = closed_told cs h
closed_told (pipe_term_ack ∷ cs) h = absurd cc

-- Nothing was acknowledged while there is a pipe to write to.
abbrev Open : Pipe → Ends → Type 0
Open p e = e.pipe.has_out ≡ true → (no_ack e.sent ≡ true) × (is_over p.state ≡ false)

-- Flushing keeps what has been done so far.
flush_keeps :
    (p : Pipe) (i : Queue) (e : Ends) → Open p e → Ran p i (some e) → Ran p i (some (flush e))
unfolding flush
flush_keeps p i e o (m, t, same_in, q) =
    let t' = flush_queue-IsTidy e.outpipe t in
    elim (Bool-cases (is_term_ack_sent e.pipe.state || not e.pipe.has_out)) [
      | inl shut ↦ rw shut (m, t, same_in, q)
      | inr fine ↦ elim (Bool-cases (flush_queue e.outpipe).0) [
        | inl a ↦ rw (fine, a) (m, t', same_in, q)
        | inr a ↦
            let (unacked, alive) = o (ground (arith, fine)) in
            rw (fine, a, control_told e.sent)
              (
                m,
                t',
                same_in,
                (closed_told e.sent unacked, λ _ h. absurd (ground (arith, alive, h))),
              )
      ]
    ]

close_out_keeps :
    (p : Pipe) (i : Queue) (e : Ends) → Open p e → Ran p i (some e) → Ran p i (close_out e)
unfolding close_out rollback
close_out_keeps p i e o (m, t, same_in, q) = elim (Bool-cases e.pipe.has_out) [
  | inr h ↦
      let eq : close_out e ≡ some (set_out_active false e) = rw h refl in
      subst (Ran p i) (sym eq) (m, t, same_in, q)
  | inl h ↦
      let c : Content Msg = record e.outpipe.content { partial = [] } in
      let shut : Ends = put delimiter false (set_out c (set_out_active false e)) in
      let eq : close_out e ≡ some (flush shut) = rw (h, t) refl in
      subst (Ran p i) (sym eq) (flush_keeps p i shut o (m, refl, same_in, q))
]

terminate-Ran :
    (delay : Bool) (st : State) (p : Pipe) (i o : Queue)
    → IsTidy o
    → Ran
        (record p { state = st })
        i
        (run (to_terminate delay) (ends (record p { state = st }) i o))
unfolding run terminate
terminate-Ran delay active p i o t =
    let p' : Pipe = record p { state = active } in
    close_out_keeps p' i (set_state term_req_sent1 (send pipe_term (set_delay delay (ends p' i o))))
      (λ _. (refl, refl)) (asked (inl refl) refl refl refl, t, refl, (refl, λ _ h. absurd cc))
terminate-Ran delay delimiter_received p i o t =
    let p' : Pipe = record p { state = delimiter_received } in
    close_out_keeps p' i (set_state term_req_sent1 (send pipe_term (set_delay delay (ends p' i o))))
      (λ _. (refl, refl)) (asked (inr refl) refl refl refl, t, refl, (refl, λ _ h. absurd cc))
terminate-Ran false waiting_for_delimiter p i o t =
    let p' : Pipe = record p { state = waiting_for_delimiter } in
    close_out_keeps p' i (acknowledge term_ack_sent (set_delay false (ends p' i o)))
      (λ h. absurd cc) (acked refl refl refl refl, t, refl, (refl, λ _ h. absurd cc))
terminate-Ran true waiting_for_delimiter p i o t =
    let p' : Pipe = record p { state = waiting_for_delimiter } in
    close_out_keeps p' i (set_delay true (ends p' i o)) (λ _. (refl, refl))
      (same refl refl refl, t, refl, (refl, λ _ _. refl))
terminate-Ran delay term_ack_sent p i o t = (same refl refl refl, t, refl, (refl, λ _ _. refl))
terminate-Ran delay term_req_sent1 p i o t = (same refl refl refl, t, refl, (refl, λ _ _. refl))
terminate-Ran delay term_req_sent2 p i o t = (same refl refl refl, t, refl, (refl, λ _ _. refl))

-- No call of the owner fails an assertion.
pub run-Ran : (c : Call) (p : Pipe) (i o : Queue) → IsTidy o → Ran p i (run c (ends p i o))
unfolding run
run-Ran to_check_read p i o t = check_read-Ran p i o t
run-Ran to_read p i o t = read-Ran p i o t
run-Ran to_rollback p i o t = rollback-Ran p i o t
run-Ran to_flush p i o t = flush-Ran p i o t
run-Ran to_set_nodelay p i o t = (same refl refl refl, t, refl, (refl, λ _ _. refl))
run-Ran (to_write m) p i o t = write-Ran m p i o t
run-Ran (to_terminate delay) p i o t = terminate-Ran delay p.state p i o t
