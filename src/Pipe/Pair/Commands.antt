-- ===== src/Pipe/Pair/Commands.antt =====
-- What each command does to the state of the termination.
use zeromq.Prelude.{
  ℕ, Bool, false, not, ◌&&◌, ◌≡◌, ◌⊎◌, inl, inr, refl, Option, none, some, List, [], ◌∷◌,
  Bool-cases,
}
use zeromq.Pipe.{
  Pipe, Queue, Ends, State, active, delimiter_received, waiting_for_delimiter, term_ack_sent,
  term_req_sent1, term_req_sent2, activate_read, activate_write, pipe_term, pipe_term_ack, Command,
  is_active, new_queue,
}
use zeromq.Pipe.Read.{is_readable, process_activate_read}
use zeromq.Pipe.Write.{process_activate_write}
use zeromq.Pipe.Terminate.{process_pipe_term, process_pipe_term_ack}
use zeromq.Pipe.Pair.{ends, process}
use zeromq.Pipe.Pair.Moves.{same, IsTidy, Ran}

pub activate_read-Ran :
    (p : Pipe) (i o : Queue) → IsTidy o → Ran p i (process activate_read (ends p i o))
unfolding process process_activate_read
activate_read-Ran p i o t = elim (Bool-cases (not p.in_active && is_readable p.state)) [
  | inl e ↦ rw e (same refl refl refl, t, refl, (refl, λ _ _. refl))
  | inr e ↦ rw e (same refl refl refl, t, refl, (refl, λ _ _. refl))
]

pub activate_write-Ran :
    (n : ℕ) (p : Pipe) (i o : Queue) → IsTidy o → Ran p i (process (activate_write n) (ends p i o))
unfolding process process_activate_write
activate_write-Ran n p i o t = elim (Bool-cases (not p.out_active && is_active p.state)) [
  | inl e ↦ rw e (same refl refl refl, t, refl, (refl, λ _ _. refl))
  | inr e ↦ rw e (same refl refl refl, t, refl, (refl, λ _ _. refl))
]

-- The answers to `pipe_term`.
pub data Reply (st : State) (out : Bool) (st' : State) (out' : Bool) (sent : List Command)
    : Type 0 where
  waits :
      st ≡ active
      → st' ≡ waiting_for_delimiter
      → out' ≡ out
      → sent ≡ []
      → Reply st out st' out' sent
  acks :
      (st ≡ active) ⊎ (st ≡ delimiter_received)
      → st' ≡ term_ack_sent
      → out' ≡ false
      → sent ≡ pipe_term_ack ∷ []
      → Reply st out st' out' sent
  crosses :
      st ≡ term_req_sent1
      → st' ≡ term_req_sent2
      → out' ≡ false
      → sent ≡ pipe_term_ack ∷ []
      → Reply st out st' out' sent

abbrev pub Replied : Pipe → Queue → Queue → Option Ends → Type 0
Replied p i o none =
    (p.state ≡ waiting_for_delimiter) ⊎ ((p.state ≡ term_ack_sent) ⊎ (p.state ≡ term_req_sent2))
Replied p i o (some e) =
    Reply p.state p.has_out e.pipe.state e.pipe.has_out e.sent × (e.inpipe ≡ i) × (e.outpipe ≡ o)

pub pipe_term-Replied :
    (st : State) (p : Pipe) (i o : Queue)
    → Replied (record p { state = st }) i o (process pipe_term (ends (record p { state = st }) i o))
unfolding process process_pipe_term
pipe_term-Replied active p i o = elim (Bool-cases p.delay) [
  | inl e ↦ rw e (waits refl refl refl refl, refl, refl)
  | inr e ↦ rw e (acks (inl refl) refl refl refl, refl, refl)
]
pipe_term-Replied delimiter_received p i o = (acks (inr refl) refl refl refl, refl, refl)
pipe_term-Replied waiting_for_delimiter p i o = inl refl
pipe_term-Replied term_ack_sent p i o = inr (inl refl)
pipe_term-Replied term_req_sent1 p i o = (crosses refl refl refl refl, refl, refl)
pipe_term-Replied term_req_sent2 p i o = inr (inr refl)

-- The end of the object: `pipe_term_ack`.
pub data Farewell (st : State) (out out' : Bool) (sent : List Command) : Type 0 where
  acked_before :
      (st ≡ term_ack_sent) ⊎ (st ≡ term_req_sent2)
      → out' ≡ out
      → sent ≡ []
      → Farewell st out out' sent
  acks_now :
      st ≡ term_req_sent1 → out' ≡ false → sent ≡ pipe_term_ack ∷ [] → Farewell st out out' sent

abbrev pub Left : Pipe → Queue → Option Ends → Type 0
Left p o none =
    (p.state ≡ active) ⊎ ((p.state ≡ delimiter_received) ⊎ (p.state ≡ waiting_for_delimiter))
Left p o (some e) =
    Farewell p.state p.has_out e.pipe.has_out e.sent × (e.inpipe ≡ new_queue) × (e.outpipe ≡ o)

pub pipe_term_ack-Left :
    (st : State) (p : Pipe) (i o : Queue)
    → Left (record p { state = st }) o (process pipe_term_ack (ends (record p { state = st }) i o))
unfolding process process_pipe_term_ack
pipe_term_ack-Left active p i o = inl refl
pipe_term_ack-Left delimiter_received p i o = inr (inl refl)
pipe_term_ack-Left waiting_for_delimiter p i o = inr (inr refl)
pipe_term_ack-Left term_ack_sent p i o = (acked_before (inl refl) refl refl, refl, refl)
pipe_term_ack-Left term_req_sent1 p i o = (acks_now refl refl refl, refl, refl)
pipe_term_ack-Left term_req_sent2 p i o = (acked_before (inr refl) refl refl, refl, refl)
