-- ===== src/Ypipe/Content/Reader.antt =====
-- The methods of the reader thread: each keeps the invariant and is an operation on the lists of
-- the content.
use zeromq.Prelude.{
  ℕ, suc, ◌+◌, ◌-◌, ◌<◌, ◌≡◌, ◌↔◌, refl, ap, ◌∙◌, inl, inr, true, false, Option, none, some, ◌∷◌,
  arith, ◌==◌, ==_iff, Bool-cases, not,
}
use zeromq.Yqueue
use zeromq.Yqueue.{front_at, back_at, end_at, pop, pop-Moves}
use zeromq.Ypipe.{Ypipe, cas, prefetched, prefetch, check_read, read}
use zeromq.Ypipe.Content.{segment, Prefetched, Announced, IsSound, content, Dequeued}

module _ {ℓ} {T : Type ℓ} where
  segment_len : (m : ℕ → T) (a : ℕ) {j k : ℕ} → j ≡ k → segment m a j ≡ segment m a k
  segment_len m a p = ap (segment m a) p

  module _ (n : ℕ) (p : Ypipe T) (s : IsSound n p) where
    -- What the compare-and-swap of the front by NULL makes of `c`, and what it hands to `r`.
    swapped :
        (c : Option ℕ)
        → Announced (front_at n p.queue) p.w c
        → Announced (front_at n p.queue) p.w (cas c (front_at n p.queue) none)
          × Prefetched (front_at n p.queue) p.w c
    swapped none h = (h, tt)
    swapped (some x) h = (swap_some, (omega (arith, s.front_le), omega arith))
      where
        swap_some : Announced (front_at n p.queue) p.w (cas (some x) (front_at n p.queue) none)
        swap_some = elim (Bool-cases (front_at n p.queue == x)) [
          | inl e ↦ rw e ((==_iff _ x).0 e ∙ h)
          | inr e ↦ rw e h
        ]

    prefetch-IsSound : IsSound n (prefetch n p)
    unfolding prefetch
    prefetch-IsSound = record {
      valid = s.valid;
      end_next = s.end_next;
      front_le = s.front_le;
      w_le = s.w_le;
      f_le = s.f_le;
      r_fits = (swapped p.c s.c_fits).1;
      c_fits = (swapped p.c s.c_fits).0;
    }

    prefetched-lt : prefetched n p ≡ true → front_at n p.queue < p.w
    unfolding prefetched
    prefetched-lt = go p.r s.r_fits
      where
        go :
            (r : Option ℕ)
            → Prefetched (front_at n p.queue) p.w r
            → (elim r [ none ↦ false | some x ↦ not (front_at n p.queue == x) ]) ≡ true
            → front_at n p.queue < p.w
        go none h e = cc
        go (some x) h e = ground arith

    -- After a failed prefetch there is nothing to read, and `c` is NULL.
    prefetched-prefetch :
        prefetched n (prefetch n p) ≡ false → (front_at n p.queue ≡ p.w) × ((prefetch n p).c ≡ none)
    unfolding prefetched prefetch
    prefetched-prefetch = go p.c s.c_fits
      where
        go :
            (c : Option ℕ)
            → Announced (front_at n p.queue) p.w c
            → (elim c [ none ↦ false | some x ↦ not (front_at n p.queue == x) ]) ≡ false
            → (front_at n p.queue ≡ p.w) × (cas c (front_at n p.queue) none ≡ none)
        go none h e = (h, refl)
        go (some x) h e = ground arith

  module _ (n : ℕ) (p : Ypipe T) (s : IsSound n p) where
    pub check_read-IsSound : IsSound n (check_read n p).1
    unfolding check_read
    check_read-IsSound = elim (Bool-cases (prefetched n p)) [
      | inl e ↦ rw e s
      | inr e ↦ rw e (prefetch-IsSound n p s)
    ]

    pub content-check_read : content n (check_read n p).1 ≡ content n p
    unfolding check_read
    content-check_read = elim (Bool-cases (prefetched n p)) [
      | inl e ↦ rw e refl
      | inr e ↦ rw e refl
    ]

    -- Exactly if an unread item was flushed, the reader sees one.
    pub check_read-eq-true : ((check_read n p).0 ≡ true) ↔ (front_at n p.queue < p.w)
    unfolding check_read
    check_read-eq-true = elim (Bool-cases (prefetched n p)) [
      | inl e ↦ rw e (λ _. prefetched-lt n p s e, λ _. refl)
      | inr e ↦ rw e (prefetched-lt n (prefetch n p) (prefetch-IsSound n p s), seen)
    ]
      where
        seen : front_at n p.queue < p.w → prefetched n (prefetch n p) ≡ true
        seen h = elim (Bool-cases (prefetched n (prefetch n p))) [
          | inl t ↦ t
          | inr f ↦ absurd (omega (arith, (prefetched-prefetch n p s f).0))
        ]

    -- A reader that finds nothing has put itself to sleep.
    pub check_read_sleeps : (check_read n p).0 ≡ false → (check_read n p).1.c ≡ none
    unfolding check_read
    check_read_sleeps = elim (Bool-cases (prefetched n p)) [
      | inl e ↦ rw e (λ h. cc)
      | inr e ↦ rw e (λ h. (prefetched-prefetch n p s h).1)
    ]

    front_kept : front_at n (check_read n p).1.queue ≡ front_at n p.queue
    unfolding check_read
    front_kept = elim (Bool-cases (prefetched n p)) [ inl e ↦ rw e refl | inr e ↦ rw e refl ]

    w_kept : (check_read n p).1.w ≡ p.w
    unfolding check_read
    w_kept = elim (Bool-cases (prefetched n p)) [ inl e ↦ rw e refl | inr e ↦ rw e refl ]

    -- The reader's `r` is past the front once `check_read` has said yes.
    r_past : (check_read n p).0 ≡ true → prefetched n (check_read n p).1 ≡ true
    unfolding check_read
    r_past = elim (Bool-cases (prefetched n p)) [ inl e ↦ rw e (λ h. e) | inr e ↦ rw e (λ h. h) ]

  module _ (n : ℕ) (p : Ypipe T) (s : IsSound n p) (ready : prefetched n p ≡ true) where
    popped : Ypipe T
    popped = record p { queue = pop n p.queue }

    awake_after : Announced (front_at n (pop n p.queue)) p.w p.c
    awake_after = go p.c s.c_fits
      where
        go :
            (c : Option ℕ)
            → Announced (front_at n p.queue) p.w c
            → Announced (front_at n (pop n p.queue)) p.w c
        go none h = absurd (omega (arith, prefetched-lt n p s ready))
        go (some x) h = h

    r_after : Prefetched (front_at n (pop n p.queue)) p.w p.r
    unfolding prefetched
    r_after = go p.r s.r_fits ready
      where
        go :
            (r : Option ℕ)
            → Prefetched (front_at n p.queue) p.w r
            → (elim r [ none ↦ false | some x ↦ not (front_at n p.queue == x) ]) ≡ true
            → Prefetched (front_at n (pop n p.queue)) p.w r
        go none h e = tt
        go (some x) h e = (ground (arith, (pop-Moves n p.queue s.valid).front_moves), h.1)

    popped-IsSound : IsSound n popped
    unfolding popped
    popped-IsSound =
        let m = pop-Moves n p.queue s.valid in
        record {
          valid = m.valid;
          end_next = unfold pop in s.end_next;
          front_le = omega (arith, m.front_moves, prefetched-lt n p s ready);
          w_le = s.w_le;
          f_le = unfold pop in s.f_le;
          r_fits = r_after;
          c_fits = awake_after;
        }

    popped-Dequeued : Dequeued (content n p) (some (Yqueue.front n p.queue)) (content n popped)
    unfolding popped pop
    popped-Dequeued =
        let front = front_at n p.queue in
        let front' = front_at n (pop n p.queue) in
        let mem = p.queue.memory in
        let one : front' ≡ front + 1 = (pop-Moves n p.queue s.valid).front_moves in
        let longer : p.w - front ≡ suc (p.w - front') = omega (arith, prefetched-lt n p s ready) in
        let next : suc front ≡ front' = omega arith in
        λ i. record {
          unread =
              (segment_len mem front longer
                  ∙ ap (λ a. mem front ∷ segment mem a (p.w - front')) next)
                i;
          complete = segment mem p.w (p.f - p.w);
          partial = segment mem p.f (back_at n p.queue - p.f);
        }

  module _ (n : ℕ) (p : Ypipe T) (s : IsSound n p) where
    pub read-IsSound : IsSound n (read n p).1
    unfolding read popped
    read-IsSound = elim (Bool-cases (check_read n p).0) [
      | inl e ↦
          rw e (popped-IsSound n (check_read n p).1 (check_read-IsSound n p s) (r_past n p s e))
      | inr e ↦ rw e (check_read-IsSound n p s)
    ]

    none_left : (check_read n p).0 ≡ false → p.w - front_at n p.queue ≡ 0
    none_left e = ground (arith, check_read-eq-true n p s)

    -- `read` takes the first item that was flushed and not read, if there is one, and fails only if
    -- there is none.
    pub read-Dequeued : Dequeued (content n p) (read n p).0 (content n (read n p).1)
    unfolding read popped
    read-Dequeued = elim (Bool-cases (check_read n p).0) [
      | inl e ↦ rw e (
          rw (content-check_read n p s) at
            (popped-Dequeued n (check_read n p).1 (check_read-IsSound n p s) (r_past n p s e)))
      | inr e ↦
          rw e (
            segment_len p.queue.memory (front_at n p.queue) (none_left e),
            content-check_read n p s,
          )
    ]

    -- A reader that gets nothing has put itself to sleep.
    pub read_sleeps : (read n p).0 ≡ none → (read n p).1.c ≡ none
    unfolding read
    read_sleeps = elim (Bool-cases (check_read n p).0) [
      | inl e ↦ rw e (λ h. cc)
      | inr e ↦ rw e (λ h. check_read_sleeps n p s e)
    ]

-- A sleeping reader stays asleep: only the writer sets `c`.
pub check_read_still {ℓ} :
    {T : Type ℓ} (n : ℕ) (p : Ypipe T) → p.c ≡ none → (check_read n p).1.c ≡ none
unfolding check_read
check_read_still n p e = elim (Bool-cases (prefetched n p)) [
  | inl t ↦ rw t e
  | inr f ↦ rw (f, e) refl
]

pub read_still {ℓ} : {T : Type ℓ} (n : ℕ) (p : Ypipe T) → p.c ≡ none → (read n p).1.c ≡ none
unfolding read
read_still n p e = elim (Bool-cases (check_read n p).0) [
  | inl t ↦ rw t (check_read_still n p e)
  | inr f ↦ rw f (check_read_still n p e)
]
