-- ===== src/Pipe/Pair/Reading.antt =====
-- The methods that read, in the termination: none of their assertions fails.
use zeromq.Prelude.{
  ℕ, ◌+◌, ◌%◌, ◌^◌, Bool, true, false, not, ◌&&◌, ◌||◌, ◌≡◌, inl, inr, refl, Option, none, some,
  List, [], ◌∷◌, ◌>>=◌, if◌then◌else◌, arith, Bool-cases,
}
use zeromq.Msg.{Msg}
use zeromq.Pipe.{
  Pipe, Queue, Ends, State, active, delimiter_received, waiting_for_delimiter, term_ack_sent,
  term_req_sent1, term_req_sent2, activate_write, send,
}
use zeromq.Pipe.Read.{
  is_readable, process_delimiter, set_unread, check_first, check_read, at_lwm, count_read,
  read_message, read,
}
use zeromq.Pipe.Pair.{ends, to_check_read, to_read, run}
use zeromq.Pipe.Pair.Moves.{IsTidy, is_over, Ran, same, got_delimiter, acked}

-- The delimiter was at the front.
delimiter-Ran :
    (st : State) (p : Pipe) (i o : Queue) (ms : List Msg)
    → is_readable st ≡ true
    → IsTidy o
    → Ran
        (record p { state = st })
        i
        (process_delimiter (set_unread ms (ends (record p { state = st }) i o)))
unfolding process_delimiter
delimiter-Ran active p i o ms r t =
    (got_delimiter refl refl refl refl, t, refl, (refl, λ _ _. refl))
delimiter-Ran waiting_for_delimiter p i o ms r t =
    (acked refl refl refl refl, t, refl, (refl, λ _ h. absurd cc))
delimiter-Ran delimiter_received p i o ms r t = absurd cc
delimiter-Ran term_ack_sent p i o ms r t = absurd cc
delimiter-Ran term_req_sent1 p i o ms r t = absurd cc
delimiter-Ran term_req_sent2 p i o ms r t = absurd cc

abbrev answer {ℓ} : {A : Type ℓ} → A → Ends → Option (A × Ends)
answer a e = some (a, e)

abbrev forget {ℓ} : {A : Type ℓ} → A × Ends → Option Ends
forget r = some r.1

-- The result of a method says nothing of what it does.
dropped {ℓ} :
    {A : Type ℓ} (p : Pipe) (i : Queue) (a : A) (r : Option Ends)
    → Ran p i r
    → Ran p i ((r >>= answer a) >>= forget)
dropped p i a none h = h
dropped p i a (some e) h = h

first-Ran :
    (ms : List Msg) (p : Pipe) (i o : Queue)
    → is_readable p.state ≡ true
    → IsTidy o
    → Ran p i (check_first ms (ends p i o) >>= λ r. some r.1)
first-Ran [] p i o r t = (same refl refl refl, t, refl, (refl, λ _ _. refl))
first-Ran (m ∷ ms) p i o r t = elim (Bool-cases m.delimiter) [
  | inl e ↦ rw e (
      dropped p i false (process_delimiter (set_unread ms (ends p i o)))
        (delimiter-Ran p.state p i o ms r t))
  | inr e ↦ rw e (same refl refl refl, t, refl, (refl, λ _ _. refl))
]

pub check_read-Ran : (p : Pipe) (i o : Queue) → IsTidy o → Ran p i (run to_check_read (ends p i o))
unfolding run check_read
check_read-Ran p i o t = elim (Bool-cases (not p.in_active || not (is_readable p.state))) [
  | inl shut ↦ rw shut (same refl refl refl, t, refl, (refl, λ _ _. refl))
  | inr fine ↦ rw fine (first-Ran i.content.unread p i o (ground (arith, fine)) t)
]

readable_not_over : (st : State) → is_readable st ≡ true → is_over st ≡ true → ⊥
readable_not_over active r h = cc
readable_not_over waiting_for_delimiter r h = cc
readable_not_over delimiter_received r h = cc
readable_not_over term_ack_sent r h = cc
readable_not_over term_req_sent1 r h = cc
readable_not_over term_req_sent2 r h = cc

-- A counter changes, and perhaps the peer is told.
told :
    (b : Bool) (n : ℕ) (p : Pipe) (i o : Queue) (ms : List Msg)
    → is_readable p.state ≡ true
    → IsTidy o
    → let p' : Pipe = record p { msgs_read = n } in
      let e : Ends = record (set_unread ms (ends p i o)) { pipe = p' } in
      Ran p i (some (if b then send (activate_write n) e else e))
told true n p i o ms r t =
    (same refl refl refl, t, refl, (refl, λ _ h. absurd (readable_not_over p.state r h)))
told false n p i o ms r t = (same refl refl refl, t, refl, (refl, λ _ _. refl))

count-Ran :
    (m : Msg) (ms : List Msg) (p : Pipe) (i o : Queue)
    → is_readable p.state ≡ true
    → IsTidy o
    → Ran p i (some (count_read m (set_unread ms (ends p i o))))
unfolding count_read
count-Ran m ms p i o r t =
    let count = if not m.more && not m.identity then (p.msgs_read + 1) % 2 ^ 64 else p.msgs_read in
    told (at_lwm p.lwm count) count p i o ms r t

message-Ran :
    (ms : List Msg) (p : Pipe) (i o : Queue)
    → is_readable p.state ≡ true
    → IsTidy o
    → Ran p i (read_message ms (ends p i o) >>= λ r. some r.1)
unfolding read_message count_read
message-Ran [] p i o r t = (same refl refl refl, t, refl, (refl, λ _ _. refl))
message-Ran (m ∷ ms) p i o r t = elim (Bool-cases m.credential) [
  | inl c ↦
      rw c (
        message-Ran ms (record p { credential = m.body }) (set_unread ms (ends p i o)).inpipe o r t)
  | inr c ↦ elim (Bool-cases m.delimiter) [
    | inl e ↦
        rw (c, e)
          (dropped p i none (process_delimiter (set_unread ms (ends p i o)))
            (delimiter-Ran p.state p i o ms r t))
    | inr e ↦ rw (c, e) (count-Ran m ms p i o r t)
  ]
]

pub read-Ran : (p : Pipe) (i o : Queue) → IsTidy o → Ran p i (run to_read (ends p i o))
unfolding run read
read-Ran p i o t = elim (Bool-cases (not p.in_active || not (is_readable p.state))) [
  | inl shut ↦ rw shut (same refl refl refl, t, refl, (refl, λ _ _. refl))
  | inr fine ↦ rw fine (message-Ran i.content.unread p i o (ground (arith, fine)) t)
]
