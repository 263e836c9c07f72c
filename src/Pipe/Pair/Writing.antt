-- ===== src/Pipe/Pair/Writing.antt =====
-- The methods that write, in the termination: none of their assertions fails.
use zeromq.Prelude.{
  Bool, true, false, not, ◌&&◌, ◌||◌, ◌≡◌, inl, inr, refl, List, [], ◌∷◌, ◌++◌, arith, Bool-cases,
}
use zeromq.Msg.{Msg}
use zeromq.Ypipe.Content.{enqueue}
use zeromq.Pipe.{Pipe, Queue, is_active, check_hwm}
use zeromq.Pipe.Write.{
  all_more, check_write, write, rollback, flush_queue, flush, no_news, is_term_ack_sent,
}
use zeromq.Pipe.Pair.{ends, to_rollback, to_flush, to_write, run}
use zeromq.Pipe.Pair.Moves.{IsTidy, Ran, same}

all_more-snoc :
    (ms : List Msg) (m : Msg) → all_more ms ≡ true → m.more ≡ true → all_more (ms ++ m ∷ []) ≡ true
all_more-snoc [] m h e = rw e refl
all_more-snoc (x ∷ ms) m h e = ground (arith, all_more-snoc ms m)

put_tidy :
    (m : Msg) (q : Queue) (incomplete : Bool)
    → IsTidy q
    → (incomplete ≡ true → m.more ≡ true)
    → all_more (enqueue m incomplete q.content).partial ≡ true
put_tidy m q true t e = all_more-snoc q.content.partial m t (e refl)
put_tidy m q false t e = refl

pub write-Ran :
    (m : Msg) (p : Pipe) (i o : Queue) → IsTidy o → Ran p i (run (to_write m) (ends p i o))
unfolding run write check_write
write-Ran m p i o t = elim (Bool-cases (not p.out_active || not (is_active p.state))) [
  | inl shut ↦ rw shut (same refl refl refl, t, refl, (refl, λ _ _. refl))
  | inr fine ↦ elim (Bool-cases (check_hwm p)) [
    | inr full ↦ rw (fine, full) (same refl refl refl, t, refl, (refl, λ _ _. refl))
    | inl room ↦ elim (Bool-cases (not m.more && not m.identity)) [
      | inl c ↦
          rw (fine, room, c)
            (same refl refl refl, put_tidy m o m.more t (λ h. h), refl, (refl, λ _ _. refl))
      | inr c ↦
          rw (fine, room, c)
            (same refl refl refl, put_tidy m o m.more t (λ h. h), refl, (refl, λ _ _. refl))
    ]
  ]
]

pub rollback-Ran : (p : Pipe) (i o : Queue) → IsTidy o → Ran p i (run to_rollback (ends p i o))
unfolding run rollback
rollback-Ran p i o t = elim (Bool-cases p.has_out) [
  | inl h ↦ rw (h, t) (same refl refl refl, refl, refl, (refl, λ _ _. refl))
  | inr h ↦ rw h (same refl refl refl, t, refl, (refl, λ _ _. refl))
]

pub flush_queue-IsTidy : (q : Queue) → IsTidy q → IsTidy (flush_queue q).1
unfolding flush_queue
flush_queue-IsTidy q t = elim (Bool-cases (no_news q.content.complete)) [
  | inl e ↦ rw e t
  | inr e ↦ rw e t
]

pub flush-Ran : (p : Pipe) (i o : Queue) → IsTidy o → Ran p i (run to_flush (ends p i o))
unfolding run flush
flush-Ran p i o t = elim (Bool-cases (is_term_ack_sent p.state || not p.has_out)) [
  | inl shut ↦ rw shut (same refl refl refl, t, refl, (refl, λ _ _. refl))
  | inr fine ↦ elim (Bool-cases (flush_queue o).0) [
    | inl e ↦ rw (fine, e) (same refl refl refl, flush_queue-IsTidy o t, refl, (refl, λ _ _. refl))
    | inr e ↦
        rw (fine, e)
          (
            same refl refl refl,
            flush_queue-IsTidy o t,
            refl,
            (refl, λ h _. absurd (ground (arith, h, fine))),
          )
  ]
]
