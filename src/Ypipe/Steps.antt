-- ===== src/Ypipe/Steps.antt =====
-- The two threads, interleaved. A call works on fields of its own thread but for the compare-and-swap
-- of `c`, so each method is one step; only `flush` accesses `c` a second time, and is two steps.
use mathlib.Core.List.{append_assoc, append-nil, append_cancel_right}
use zeromq.Prelude.{
  ℕ, ◌-◌, ◌<◌, ◌≡◌, refl, sym, ap, ◌∙◌, inl, inr, Bool, true, false, not, Option, none, some, List,
  [], ◌∷◌, ◌++◌, arith, ◌==◌, Bool-cases,
}
use zeromq.Ypipe
use zeromq.Ypipe.{Ypipe, is_at, write, unwrite, flush_cas, flush_wake, flush, check_read, read}
use zeromq.Yqueue.{front_at}
use zeromq.Ypipe.Content.{
  segment, IsSound, Content, content, enqueue, hand_over, Unwritten, Dequeued,
}
use zeromq.Ypipe.Content.Writer
use zeromq.Ypipe.Content.Reader

-- `waking`: the writer's compare-and-swap failed, and it is about to store `c`. The lists are what
-- was written and not taken back by `unwrite`, and what was read, oldest first.
pub record Threads {ℓ} (T : Type ℓ) : Type ℓ where
  pub pipe : Ypipe T
  pub waking : Bool
  pub given : List T
  pub taken : List T

abbrev pub to_list {ℓ} : {T : Type ℓ} → Option T → List T
to_list none = []
to_list (some v) = v ∷ []

module _ {ℓ} {T : Type ℓ} where
  unfoldable pub start : ℕ → (ℕ → T) → Threads T
  start n junk = record { pipe = Ypipe.new n junk; waking = false; given = []; taken = [] }

  -- One step of either thread. The reader's steps have no premise: they may fall into a `flush`.
  pub data Step (n : ℕ) : Threads T → Threads T → Type ℓ where
    write_step :
        (s : Threads T) (v : T) (incomplete : Bool)
        → s.waking ≡ false
        → Step n s (record s { pipe = write n v incomplete s.pipe; given = s.given ++ v ∷ [] })
    unwrite_step :
        (s : Threads T) (rest : List T)
        → s.waking ≡ false
        → s.given ≡ rest ++ to_list (unwrite n s.pipe).0
        → Step n s (record s { pipe = (unwrite n s.pipe).1; given = rest })
    flush_step :
        (s : Threads T)
        → s.waking ≡ false
        → (s.pipe.w == s.pipe.f) ≡ false
        → Step n s (record s { pipe = flush_cas n s.pipe; waking = not (is_at s.pipe.w s.pipe.c) })
    wake_step :
        (s : Threads T)
        → s.waking ≡ true
        → Step n s (record s { pipe = flush_wake n s.pipe; waking = false })
    check_read_step : (s : Threads T) → Step n s (record s { pipe = (check_read n s.pipe).1 })
    read_step :
        (s : Threads T)
        → Step n s
            (record s { pipe = (read n s.pipe).1; taken = s.taken ++ to_list (read n s.pipe).0 })

  pub data Reach (n : ℕ) (s : Threads T) : Threads T → Type ℓ where
    here : Reach n s s
    next : {t u : Threads T} → Reach n s t → Step n t u → Reach n s u

  abbrev pub items : Content T → List T
  items c = c.unread ++ (c.complete ++ c.partial)

  -- The pointers are sound, nothing is lost or reordered, and the store of `c` outside of a
  -- compare-and-swap meets no other access that writes `c`.
  pub record IsFifo (n : ℕ) (s : Threads T) : Type ℓ where
    pub sound : IsSound n s.pipe
    pub in_order : s.given ≡ s.taken ++ items (content n s.pipe)
    pub alone : s.waking ≡ true → s.pipe.c ≡ none

  items-enqueue : (v : T) (b : Bool) (c : Content T) → items (enqueue v b c) ≡ items c ++ v ∷ []
  items-enqueue v true c = simp append_assoc
  items-enqueue v false c = simp (append_assoc, append-nil)

  items-hand_over : (c : Content T) → items (hand_over c) ≡ items c
  items-hand_over c = simp (append_assoc, append-nil)

  items-Dequeued :
      (c : Content T) (o : Option T) (c' : Content T)
      → Dequeued c o c'
      → items c ≡ to_list o ++ items c'
  items-Dequeued c none c' h = ap items (sym h.1)
  items-Dequeued c (some v) c' h = ap items h

  items-Unwritten :
      (c : Content T) (o : Option T) (c' : Content T)
      → Unwritten c o c'
      → items c ≡ items c' ++ to_list o
  items-Unwritten c none c' h = ap items (sym h.1) ∙ sym (append-nil (items c'))
  items-Unwritten c (some v) c' h = ap items h ∙ items-enqueue v true c'

  module _ (n : ℕ) where
    start-IsFifo : (junk : ℕ → T) → 0 < n → IsFifo n (start n junk)
    unfolding start
    start-IsFifo junk h = record {
      sound = Writer.new-IsSound n junk h;
      in_order = ap items (sym (Writer.content-new n junk));
      alone = λ e. cc;
    }

    cas-IsFifo :
        (s : Threads T)
        → IsFifo n s
        → IsFifo n (record s { pipe = flush_cas n s.pipe; waking = not (is_at s.pipe.w s.pipe.c) })
    unfolding flush_cas
    cas-IsFifo s h = elim (Bool-cases (is_at s.pipe.w s.pipe.c)) [
      | inl e ↦ rw e (record {
        sound = Writer.handed_over n s.pipe h.sound refl;
        in_order =
            h.in_order
            ∙ ap (λ l. s.taken ++ l)
                (sym (
                  ap items (Writer.content-handed_over n s.pipe h.sound (some s.pipe.f))
                  ∙ items-hand_over (content n s.pipe)));
        alone = λ x. cc;
      })
      | inr e ↦ rw e (record {
        sound = h.sound;
        in_order = h.in_order;
        alone = λ _. (Writer.asleep_iff n s.pipe h.sound).0 e;
      })
    ]

    wake-IsFifo :
        (s : Threads T)
        → IsFifo n s
        → IsFifo n (record s { pipe = flush_wake n s.pipe; waking = false })
    unfolding flush_wake
    wake-IsFifo s h = record {
      sound = Writer.handed_over n s.pipe h.sound refl;
      in_order =
          h.in_order
          ∙ ap (λ l. s.taken ++ l)
              (sym (
                ap items (Writer.content-handed_over n s.pipe h.sound (some s.pipe.f))
                ∙ items-hand_over (content n s.pipe)));
      alone = λ e. cc;
    }

    Step-IsFifo : {s t : Threads T} → Step n s t → IsFifo n s → IsFifo n t
    Step-IsFifo (write_step s v b idle) h = record {
      sound = Writer.write-IsSound n s.pipe h.sound v b;
      in_order =
          ap (λ l. l ++ v ∷ []) h.in_order
          ∙ append_assoc s.taken (items (content n s.pipe)) (v ∷ [])
          ∙ ap (λ l. s.taken ++ l)
              (sym (
                ap items (Writer.content-write n s.pipe h.sound v b)
                ∙ items-enqueue v b (content n s.pipe)));
      alone = λ e. cc;
    }
    Step-IsFifo (unwrite_step s rest idle e) h = record {
      sound = Writer.unwrite-IsSound n s.pipe h.sound;
      in_order =
          append_cancel_right rest (s.taken ++ items (content n (unwrite n s.pipe).1))
            (to_list (unwrite n s.pipe).0)
            (sym e
              ∙ h.in_order
              ∙ ap (λ l. s.taken ++ l)
                  (items-Unwritten _ (unwrite n s.pipe).0 _
                    (Writer.unwrite-Unwritten n s.pipe h.sound))
              ∙ sym (
                  append_assoc s.taken (items (content n (unwrite n s.pipe).1))
                    (to_list (unwrite n s.pipe).0)));
      alone = λ e. cc;
    }
    Step-IsFifo (flush_step s idle more) h = cas-IsFifo s h
    Step-IsFifo (wake_step s busy) h = wake-IsFifo s h
    Step-IsFifo (check_read_step s) h = record {
      sound = Reader.check_read-IsSound n s.pipe h.sound;
      in_order =
          h.in_order
          ∙ ap (λ c. s.taken ++ items c) (sym (Reader.content-check_read n s.pipe h.sound));
      alone = λ e. Reader.check_read_still n s.pipe (h.alone e);
    }
    Step-IsFifo (read_step s) h = record {
      sound = Reader.read-IsSound n s.pipe h.sound;
      in_order =
          h.in_order
          ∙ ap (λ l. s.taken ++ l)
              (items-Dequeued _ (read n s.pipe).0 _ (Reader.read-Dequeued n s.pipe h.sound))
          ∙ sym (
              append_assoc s.taken (to_list (read n s.pipe).0)
                (items (content n (read n s.pipe).1)));
      alone = λ e. Reader.read_still n s.pipe (h.alone e);
    }

    Reach-IsFifo : {s t : Threads T} → Reach n s t → IsFifo n s → IsFifo n t
    Reach-IsFifo here h = h
    Reach-IsFifo (next r st) h = Step-IsFifo st (Reach-IsFifo r h)

    -- From a new pipe, in whatever order the two threads take their steps, what was read is a prefix
    -- of what was written, in the order of writing, and the rest of it is in the pipe; the store of
    -- `c` that is no compare-and-swap happens only while `c` is NULL.
    pub Reach-start-IsFifo :
        (junk : ℕ → T) → 0 < n → {s : Threads T} → Reach n (start n junk) s → IsFifo n s
    Reach-start-IsFifo junk h r = Reach-IsFifo r (start-IsFifo junk h)

    -- From a new pipe, in whatever order the two threads take their steps, a reader that sleeps has
    -- read every item that was handed over: no flushed item waits for a reader that nobody wakes.
    pub Reach-no_lost_wakeup :
        (junk : ℕ → T)
        → 0 < n
        → {s : Threads T} → Reach n (start n junk) s
        → s.pipe.c ≡ none
        → (content n s.pipe).unread ≡ []
    Reach-no_lost_wakeup junk h {s} r asleep =
        let sound = (Reach-start-IsFifo junk h r).sound in
        let read_all : front_at n s.pipe.queue ≡ s.pipe.w = rw asleep at sound.c_fits in
        let none_left : s.pipe.w - front_at n s.pipe.queue ≡ 0 = omega arith in
        ap (segment s.pipe.queue.memory (front_at n s.pipe.queue)) none_left
