-- ===== src/Ypipe/Content/Segment.antt =====
-- The list of the values at consecutive addresses.
use zeromq.Prelude.{ℕ, zero, suc, ◌+◌, ◌<◌, ◌≡◌, refl, arith, List, [], ◌∷◌, ◌++◌}

module _ {ℓ} {T : Type ℓ} where
  abbrev pub segment : (ℕ → T) → ℕ → ℕ → List T
  segment m a zero = []
  segment m a (suc k) = m a ∷ segment m (suc a) k

  pub segment_at : (m : ℕ → T) {a b j k : ℕ} → a ≡ b → j ≡ k → segment m a j ≡ segment m b k
  segment_at m p q = cc

  pub segment-append :
      (m : ℕ → T) (a j k : ℕ) → segment m a (j + k) ≡ segment m a j ++ segment m (a + j) k
  segment-append m a zero k = segment_at m (omega arith) (omega arith)
  segment-append m a (suc j) k =
      let count : suc j + k ≡ suc (j + k) = omega arith in
      let start : suc a + j ≡ a + suc j = omega arith in
      rw count (rw (segment-append m (suc a) j k) (rw start refl))

  -- Only the addresses of the segment count.
  pub segment_congr :
      (m m' : ℕ → T) (a k : ℕ) → ((x : ℕ) → x < a + k → m' x ≡ m x) → segment m' a k ≡ segment m a k
  segment_congr m m' a zero h = refl
  segment_congr m m' a (suc k) h =
      rw (h a (omega arith), segment_congr m m' (suc a) k (λ x p. h x (omega arith))) refl

  pub segment-snoc : (m : ℕ → T) (a k : ℕ) → segment m a (suc k) ≡ segment m a k ++ m (a + k) ∷ []
  segment-snoc m a zero = let e : a + 0 ≡ a = omega arith in rw e refl
  segment-snoc m a (suc k) =
      let e : suc a + k ≡ a + suc k = omega arith in rw (segment-snoc m (suc a) k) (rw e refl)
