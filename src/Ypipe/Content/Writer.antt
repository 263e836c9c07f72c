-- ===== src/Ypipe/Content/Writer.antt =====
-- The constructor and the methods of the writer thread: each keeps the invariant and is an operation
-- on the lists of the content.
use zeromq.Prelude.{
  ℕ, suc, ◌+◌, ◌-◌, ◌*◌, ◌≤◌, ◌<◌, ◌≡◌, ◌↔◌, refl, ap, ◌∙◌, inl, inr, Bool, true, false, Option,
  none, some, List, [], ◌∷◌, ◌++◌, arith, ◌==◌, if◌then◌else◌, ==_iff, ==_refl, Bool-cases,
}
use zeromq.Yqueue
use zeromq.Yqueue.{
  Yqueue, front_at, back_at, end_at, assign_back, push, unpush, pop, push-Moves, unpush-Moves,
  pop-Moves, new-IsValid,
}
use zeromq.Ypipe
use zeromq.Ypipe.{
  Ypipe, is_at, cas, write, unwrite, flush_cas, flush_wake, flush, prefetched, prefetch, check_read,
  read,
}
use zeromq.Ypipe.Content.{
  segment, segment-append, segment_congr, segment-snoc, Prefetched, Announced, IsSound, Content,
  content, enqueue, hand_over, Unwritten,
}

module _ {ℓ} {T : Type ℓ} where
  Content_path :
      {a a' b b' c c' : List T}
      → a ≡ a'
      → b ≡ b'
      → c ≡ c'
      → ◌≡◌ {A = Content T}
          (record { unread = a; complete = b; partial = c })
          (record { unread = a'; complete = b'; partial = c' })
  Content_path p q r = λ i. record { unread = p i; complete = q i; partial = r i }

  segment_len : (m : ℕ → T) (a : ℕ) {j k : ℕ} → j ≡ k → segment m a j ≡ segment m a k
  segment_len m a p = ap (segment m a) p

  pub new-IsSound : (n : ℕ) (junk : ℕ → T) → 0 < n → IsSound n (Ypipe.new n junk)
  unfolding Ypipe.new
  new-IsSound n junk h =
      let m = push-Moves n (Yqueue.new junk) (new-IsValid n junk h) in
      record {
        valid = m.valid;
        end_next = omega arith;
        front_le = omega arith;
        w_le = omega arith;
        f_le = omega arith;
        r_fits = omega arith;
        c_fits = refl;
      }

  pub content-new :
      (n : ℕ) (junk : ℕ → T)
      → content n (Ypipe.new n junk) ≡ record { unread = []; complete = []; partial = [] }
  unfolding Ypipe.new push Yqueue.new
  content-new n junk =
      let e : 0 * n + 0 - (0 * n + 0) ≡ 0 = omega arith in
      Content_path (segment_len junk _ e) (segment_len junk _ e) (segment_len junk _ e)

  -- The memory with `v` written at the back.
  abbrev put_at : (ℕ → T) → ℕ → T → ℕ → T
  put_at m b v a = if a == b then v else m a

  put_at_below : (m : ℕ → T) (b : ℕ) (v : T) (x : ℕ) → x < b → put_at m b v x ≡ m x
  put_at_below m b v x h = let e : (x == b) ≡ false = ground arith in rw e

  segment-put_at :
      (m : ℕ → T) (b : ℕ) (v : T) (a k : ℕ) → a + k ≤ b → segment (put_at m b v) a k ≡ segment m a k
  segment-put_at m b v a k h =
      segment_congr m (put_at m b v) a k (λ x p. put_at_below m b v x (omega arith))

  segment-put_at_last :
      (m : ℕ → T) (b : ℕ) (v : T) (a : ℕ)
      → a ≤ b
      → segment (put_at m b v) a (suc (b - a)) ≡ segment m a (b - a) ++ v ∷ []
  segment-put_at_last m b v a h =
      let last : a + (b - a) ≡ b = omega arith in
      segment-snoc (put_at m b v) a (b - a)
      ∙ rw (segment-put_at m b v a (b - a) (omega arith), last, ==_refl b) refl

  assign_back-IsValid :
      (n : ℕ) (v : T) (q : Yqueue T) → Yqueue.IsValid n q → Yqueue.IsValid n (assign_back n v q)
  unfolding assign_back
  assign_back-IsValid n v q h = record {
    begin_fits = h.begin_fits;
    back_fits = h.back_fits;
    end_fits = h.end_fits;
  }

  module _ (n : ℕ) (p : Ypipe T) (s : IsSound n p) where
    pub write-IsSound : (v : T) (incomplete : Bool) → IsSound n (write n v incomplete p)
    unfolding write assign_back push
    write-IsSound v incomplete =
        let m = push-Moves n (assign_back n v p.queue) (assign_back-IsValid n v p.queue s.valid) in
        record {
          valid = m.valid;
          end_next = m.end_moves;
          front_le = s.front_le;
          w_le = ground (arith, s.w_le, s.f_le, s.end_next);
          f_le = ground (arith, s.f_le, s.end_next);
          r_fits = s.r_fits;
          c_fits = s.c_fits;
        }

    -- `write` appends to the message that is being written, and completes it unless told otherwise.
    pub content-write :
        (v : T) (incomplete : Bool)
        → content n (write n v incomplete p) ≡ enqueue v incomplete (content n p)
    unfolding write assign_back push
    content-write v true =
        let mem = p.queue.memory in
        let b = back_at n p.queue in
        let one_more : end_at n p.queue - p.f ≡ suc (b - p.f) = omega (arith, s.f_le, s.end_next) in
        Content_path
          (segment-put_at mem b v (front_at n p.queue) (p.w - front_at n p.queue)
            (omega (arith, s.front_le, s.w_le, s.f_le)))
          (segment-put_at mem b v p.w (p.f - p.w) (omega (arith, s.w_le, s.f_le)))
          (segment_len (put_at mem b v) p.f one_more ∙ segment-put_at_last mem b v p.f s.f_le)
    content-write v false =
        let mem = p.queue.memory in
        let b = back_at n p.queue in
        let one_more : end_at n p.queue - p.w ≡ suc (b - p.w) =
          omega (arith, s.w_le, s.f_le, s.end_next) in
        let both : b - p.w ≡ (p.f - p.w) + (b - p.f) = omega (arith, s.w_le, s.f_le) in
        let middle : p.w + (p.f - p.w) ≡ p.f = omega (arith, s.w_le) in
        let nothing : end_at n p.queue - end_at n p.queue ≡ 0 = omega arith in
        Content_path
          (segment-put_at mem b v (front_at n p.queue) (p.w - front_at n p.queue)
            (omega (arith, s.front_le, s.w_le, s.f_le)))
          (segment_len (put_at mem b v) p.w one_more
            ∙ segment-put_at_last mem b v p.w (omega (arith, s.w_le, s.f_le))
            ∙ ap (λ l. l ++ v ∷ [])
                (segment_len mem p.w both
                  ∙ segment-append mem p.w (p.f - p.w) (b - p.f)
                  ∙ ap (λ a. segment mem p.w (p.f - p.w) ++ segment mem a (b - p.f)) middle))
          (segment_len (put_at mem b v) (end_at n p.queue) nothing)

    below_back : (p.f == back_at n p.queue) ≡ false → p.f < back_at n p.queue
    below_back e = ground (arith, s.f_le)

    pub unwrite-IsSound : IsSound n (unwrite n p).1
    unfolding unwrite
    unwrite-IsSound = elim (Bool-cases (p.f == back_at n p.queue)) [
      | inl e ↦ rw e s
      | inr e ↦
          let lt = below_back e in
          let m = unpush-Moves n p.queue s.valid (omega arith) (omega (arith, s.end_next)) in
          rw e (record {
            valid = m.valid;
            end_next = omega (arith, m.end_moves, m.back_moves, s.end_next);
            front_le = unfold unpush in s.front_le;
            w_le = s.w_le;
            f_le = omega (arith, m.back_moves);
            r_fits = unfold unpush in s.r_fits;
            c_fits = unfold unpush in s.c_fits;
          })
    ]

    -- `unwrite` takes back the last `write` of an unfinished message, and nothing else.
    pub unwrite-Unwritten : Unwritten (content n p) (unwrite n p).0 (content n (unwrite n p).1)
    unfolding unwrite unpush
    unwrite-Unwritten = elim (Bool-cases (p.f == back_at n p.queue)) [
      | inl e ↦
          let empty : back_at n p.queue - p.f ≡ 0 = ground arith in
          rw e (segment_len p.queue.memory p.f empty, refl)
      | inr e ↦
          let lt = below_back e in
          let m = unpush-Moves n p.queue s.valid (omega arith) (omega (arith, s.end_next)) in
          let b : back_at n (unpush n p.queue) ≡ back_at n p.queue - 1 = m.back_moves in
          let one_more : back_at n p.queue - p.f ≡ suc (back_at n (unpush n p.queue) - p.f) =
            omega (arith, b) in
          let last : p.f + (back_at n (unpush n p.queue) - p.f) ≡ back_at n (unpush n p.queue) =
            omega (arith, b) in
          rw e (
            Content_path refl refl (
              segment_len p.queue.memory p.f one_more
              ∙ segment-snoc p.queue.memory p.f (back_at n (unpush n p.queue) - p.f)
              ∙ ap
                  (λ a.
                    segment p.queue.memory p.f (back_at n (unpush n p.queue) - p.f)
                    ++ p.queue.memory a ∷ [])
                  last))
    ]

    awake : is_at p.w p.c ≡ true → Announced (front_at n p.queue) p.f (cas p.c p.w (some p.f))
    awake e = rw e refl

    -- A pipe whose `c` and `w` are both at `f` has handed over all that is complete.
    pub handed_over :
        {c : Option ℕ}
        → Announced (front_at n p.queue) p.f c
        → IsSound n (record p { w = p.f; c = c })
    handed_over h = record {
      valid = s.valid;
      end_next = s.end_next;
      front_le = omega (arith, s.front_le, s.w_le);
      w_le = omega arith;
      f_le = s.f_le;
      r_fits = widen p.r s.r_fits;
      c_fits = h;
    }
      where
        widen :
            (r : Option ℕ)
            → Prefetched (front_at n p.queue) p.w r
            → Prefetched (front_at n p.queue) p.f r
        widen none h = tt
        widen (some x) h = (h.0, omega (arith, h.1, s.w_le))

    nothing_new : (p.w == p.f) ≡ true → p ≡ record p { w = p.f }
    nothing_new e = let same : p.w ≡ p.f = (==_iff p.w p.f).0 e in λ i. record p { w = same i }

    pub content-handed_over :
        (c : Option ℕ) → content n (record p { w = p.f; c = c }) ≡ hand_over (content n p)
    content-handed_over c =
        let front = front_at n p.queue in
        let mem = p.queue.memory in
        let both : p.f - front ≡ (p.w - front) + (p.f - p.w) = omega (arith, s.front_le, s.w_le) in
        let middle : front + (p.w - front) ≡ p.w = omega (arith, s.front_le) in
        let empty : p.f - p.f ≡ 0 = omega arith in
        Content_path
          (segment_len mem front both
            ∙ segment-append mem front (p.w - front) (p.f - p.w)
            ∙ ap (λ a. segment mem front (p.w - front) ++ segment mem a (p.f - p.w)) middle)
          (segment_len mem p.f empty) refl

    pub flush-IsSound : IsSound n (flush n p).1
    unfolding flush
    flush-IsSound = elim (Bool-cases (p.w == p.f)) [
      | inl e ↦ rw e s
      | inr e ↦ elim (Bool-cases (is_at p.w p.c)) [
        | inl a ↦ rw (e, a) (handed_over refl)
        | inr a ↦ rw (e, a) (handed_over refl)
      ]
    ]

    -- `flush` hands over every item that is complete, and no other.
    pub content-flush : content n (flush n p).1 ≡ hand_over (content n p)
    unfolding flush
    content-flush = elim (Bool-cases (p.w == p.f)) [
      | inl e ↦ rw e (ap (content n) (nothing_new e) ∙ content-handed_over p.c)
      | inr e ↦ elim (Bool-cases (is_at p.w p.c)) [
        | inl a ↦ rw (e, a) (content-handed_over (some p.f))
        | inr a ↦ rw (e, a) (content-handed_over (some p.f))
      ]
    ]

    pub asleep_iff : (is_at p.w p.c ≡ false) ↔ (p.c ≡ none)
    asleep_iff = go p.c s.c_fits
      where
        go :
            (c : Option ℕ)
            → Announced (front_at n p.queue) p.w c
            → (is_at p.w c ≡ false) ↔ (c ≡ none)
        go none h = (λ _. refl, λ _. refl)
        go (some x) h = (λ e. absurd (ground arith), λ e. cc)

    -- `flush` asks for the reader to be woken exactly if the reader sleeps and there are new items.
    pub flush-eq-false : ((flush n p).0 ≡ false) ↔ ((p.c ≡ none) × (p.w < p.f))
    unfolding flush
    flush-eq-false = ground (arith, asleep_iff, s.w_le)
