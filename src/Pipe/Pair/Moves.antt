-- ===== src/Pipe/Pair/Moves.antt =====
-- What a method does to the state of the termination.
use zeromq.Prelude.{Bool, true, false, ◌≡◌, ◌⊎◌, Option, none, some, List, [], ◌∷◌}
use zeromq.Pipe.{
  Pipe, Queue, Ends, State, Command, active, delimiter_received, waiting_for_delimiter,
  term_ack_sent, term_req_sent1, term_req_sent2, activate_read, activate_write, pipe_term,
  pipe_term_ack,
}
use zeromq.Pipe.Write.{all_more}

-- The commands of the termination.
abbrev pub control : List Command → List Command
control [] = []
control (activate_read ∷ cs) = control cs
control (activate_write n ∷ cs) = control cs
control (pipe_term ∷ cs) = pipe_term ∷ control cs
control (pipe_term_ack ∷ cs) = pipe_term_ack ∷ control cs

-- What a call of the owner can do to the state and to `outpipe`, with the commands that it sends.
pub data Move (st : State) (out : Bool) (st' : State) (out' : Bool) (cs : List Command)
    : Type 0 where
  same : st' ≡ st → out' ≡ out → cs ≡ [] → Move st out st' out' cs
  got_delimiter :
      st ≡ active → st' ≡ delimiter_received → out' ≡ out → cs ≡ [] → Move st out st' out' cs
  asked :
      (st ≡ active) ⊎ (st ≡ delimiter_received)
      → st' ≡ term_req_sent1
      → out' ≡ out
      → cs ≡ pipe_term ∷ []
      → Move st out st' out' cs
  acked :
      st ≡ waiting_for_delimiter
      → st' ≡ term_ack_sent
      → out' ≡ false
      → cs ≡ pipe_term_ack ∷ []
      → Move st out st' out' cs

-- The unfinished message of a queue can be taken back.
abbrev pub IsTidy : Queue → Type 0
IsTidy q = all_more q.content.partial ≡ true

-- Nothing follows an acknowledgement.
abbrev pub no_ack : List Command → Bool
no_ack [] = true
no_ack (c ∷ cs) = elim c [ pipe_term_ack ↦ false | _ ↦ no_ack cs ]

abbrev pub closed : List Command → Bool
closed [] = true
closed (c ∷ cs) = elim c [
  | pipe_term_ack ↦ (elim cs [ [] ↦ true | x ∷ xs ↦ false ])
  | _ ↦ closed cs
]

-- The states in which the acknowledgement has been sent.
abbrev pub is_over : State → Bool
is_over s = elim s [ term_ack_sent ↦ true | term_req_sent2 ↦ true | _ ↦ false ]

-- After the acknowledgement nothing is sent.
abbrev pub Quiet : State → Bool → List Command → Type 0
Quiet st out cs = (closed cs ≡ true) × (out ≡ false → is_over st ≡ true → cs ≡ [])

abbrev pub Ran : Pipe → Queue → Option Ends → Type 0
Ran p i none = ⊥
Ran p i (some e) =
    Move p.state p.has_out e.pipe.state e.pipe.has_out (control e.sent)
    × IsTidy e.outpipe
    × (e.inpipe.content.partial ≡ i.content.partial)
    × Quiet p.state p.has_out e.sent
