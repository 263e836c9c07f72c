-- ===== src/Yqueue.antt =====
-- src/yqueue.hpp: the chunked queue under `ypipe_t`.
-- A chunk is named by its place along the `next` links: the `next` of chunk k is k + 1, its `prev` is
-- k - 1. The address of `values [pos]` of chunk k is `k * n + pos`, where n is the template's N, and
-- `memory` holds what stands at each address. `spare` says whether `spare_chunk` is set; taking it or
-- allocating gives the same chunk k + 1. `free` has no other effect on the model.
use zeromq.Prelude.{
  ℕ, zero, suc, ◌+◌, ◌-◌, ◌*◌, ◌<◌, ◌≡◌, refl, inl, inr, Bool, Bool-cases, ==_iff, true, false,
  arith, ◌==◌, if◌then◌else◌,
}

pub record Yqueue {ℓ} (T : Type ℓ) : Type ℓ where
  pub begin_chunk : ℕ
  pub begin_pos : ℕ
  pub back_chunk : ℕ
  pub back_pos : ℕ
  pub end_chunk : ℕ
  pub end_pos : ℕ
  pub spare : Bool
  pub memory : ℕ → T

-- One position up, over the chunk's border where it is reached.
up_at :
    (n c p : ℕ)
    → p < n
    → (if p + 1 == n then c + 1 else c) * n + (if p + 1 == n then 0 else p + 1) ≡ c * n + p + 1
up_at n c p h = elim (Bool-cases (p + 1 == n)) [
  | inl e ↦ rw e (omega (arith, (==_iff (p + 1) n).0 e))
  | inr e ↦ rw e (omega arith)
]

up_fits : (n p : ℕ) → p < n → (if p + 1 == n then 0 else p + 1) < n
up_fits n p h = ground arith

suc-sub_one : (c : ℕ) → suc c - 1 ≡ c
suc-sub_one c = omega arith

suc-ne-zero : (p : ℕ) → (suc p == 0) ≡ false
suc-ne-zero p = ground arith

-- One position down.
down_at :
    (n c p : ℕ)
    → 0 < n
    → 0 < c * n + p
    → (if p == 0 then c - 1 else c) * n + (if p == 0 then n - 1 else p - 1) ≡ c * n + p - 1
down_at n zero zero k h = absurd (omega arith)
down_at n (suc c) zero k h = rw (suc-sub_one c) (omega arith)
down_at n c (suc p) k h = rw (suc-ne-zero p) (omega arith)

down_fits : (n p : ℕ) → p < n → (if p == 0 then n - 1 else p - 1) < n
down_fits n p h = ground arith

module _ {ℓ} {T : Type ℓ} where
  -- The constructor. `back_chunk` is NULL, and nothing reads it before the first `push`; what the
  -- fresh chunk holds is the caller's `junk`.
  unfoldable pub new : (ℕ → T) → Yqueue T
  new junk = record {
    begin_chunk = 0;
    begin_pos = 0;
    back_chunk = 0;
    back_pos = 0;
    end_chunk = 0;
    end_pos = 0;
    spare = false;
    memory = junk;
  }

  -- `&queue.front ()`, `&queue.back ()`, and the address that the next `push` makes the back.
  abbrev pub front_at : ℕ → Yqueue T → ℕ
  front_at n q = q.begin_chunk * n + q.begin_pos

  abbrev pub back_at : ℕ → Yqueue T → ℕ
  back_at n q = q.back_chunk * n + q.back_pos

  abbrev pub end_at : ℕ → Yqueue T → ℕ
  end_at n q = q.end_chunk * n + q.end_pos

  -- `front ()` and `back ()` as values.
  abbrev pub front : ℕ → Yqueue T → T
  front n q = q.memory (front_at n q)

  abbrev pub back : ℕ → Yqueue T → T
  back n q = q.memory (back_at n q)

  -- `back () = value`
  unfoldable pub assign_back : ℕ → T → Yqueue T → Yqueue T
  assign_back n v q = record q { memory = λ a. if a == back_at n q then v else q.memory a }

  -- `++end_pos != N` is the test; past the chunk's end the next chunk is linked in.
  unfoldable pub push : ℕ → Yqueue T → Yqueue T
  push n q =
      let full = q.end_pos + 1 == n in
      record q {
        back_chunk = q.end_chunk;
        back_pos = q.end_pos;
        end_chunk = if full then q.end_chunk + 1 else q.end_chunk;
        end_pos = if full then 0 else q.end_pos + 1;
        spare = if full then false else q.spare;
      }

  -- First the back goes one position down, then the end, each into the chunk before if it has to.
  unfoldable pub unpush : ℕ → Yqueue T → Yqueue T
  unpush n q = record q {
    back_chunk = if q.back_pos == 0 then q.back_chunk - 1 else q.back_chunk;
    back_pos = if q.back_pos == 0 then n - 1 else q.back_pos - 1;
    end_chunk = if q.end_pos == 0 then q.end_chunk - 1 else q.end_chunk;
    end_pos = if q.end_pos == 0 then n - 1 else q.end_pos - 1;
  }

  -- A chunk that is used up becomes the spare one.
  unfoldable pub pop : ℕ → Yqueue T → Yqueue T
  pop n q =
      let used = q.begin_pos + 1 == n in
      record q {
        begin_chunk = if used then q.begin_chunk + 1 else q.begin_chunk;
        begin_pos = if used then 0 else q.begin_pos + 1;
        spare = if used then true else q.spare;
      }

  -- Every position lies in its chunk.
  pub record IsValid (n : ℕ) (q : Yqueue T) : Type 0 where
    pub begin_fits : q.begin_pos < n
    pub back_fits : q.back_pos < n
    pub end_fits : q.end_pos < n

  pub new-IsValid : (n : ℕ) (junk : ℕ → T) → 0 < n → IsValid n (new junk)
  unfolding new
  new-IsValid n junk h = omega arith

  -- What each operation does to the three addresses and to the memory, chunks being out of sight.
  pub record Moves (n : ℕ) (q q' : Yqueue T) (begin' back' end' : ℕ) : Type ℓ where
    pub valid : IsValid n q'
    pub front_moves : front_at n q' ≡ begin'
    pub back_moves : back_at n q' ≡ back'
    pub end_moves : end_at n q' ≡ end'
    pub memory_kept : q'.memory ≡ q.memory

  -- `push` advances the end by one address and makes the old end the back.
  pub push-Moves :
      (n : ℕ) (q : Yqueue T)
      → IsValid n q
      → Moves n q (push n q) (front_at n q) (end_at n q) (end_at n q + 1)
  unfolding push
  push-Moves n q v = record {
    valid = record {
      begin_fits = v.begin_fits;
      back_fits = v.end_fits;
      end_fits = up_fits n q.end_pos v.end_fits;
    };
    front_moves = refl;
    back_moves = refl;
    end_moves = up_at n q.end_chunk q.end_pos v.end_fits;
    memory_kept = refl;
  }

  -- `unpush` takes the back and the end one address down, across a chunk border too.
  pub unpush-Moves :
      (n : ℕ) (q : Yqueue T)
      → IsValid n q
      → 0 < back_at n q
      → 0 < end_at n q
      → Moves n q (unpush n q) (front_at n q) (back_at n q - 1) (end_at n q - 1)
  unfolding unpush
  unpush-Moves n q v b e = record {
    valid = record {
      begin_fits = v.begin_fits;
      back_fits = down_fits n q.back_pos v.back_fits;
      end_fits = down_fits n q.end_pos v.end_fits;
    };
    front_moves = refl;
    back_moves = down_at n q.back_chunk q.back_pos (omega arith) b;
    end_moves = down_at n q.end_chunk q.end_pos (omega arith) e;
    memory_kept = refl;
  }

  -- `pop` advances the front by one address.
  pub pop-Moves :
      (n : ℕ) (q : Yqueue T)
      → IsValid n q
      → Moves n q (pop n q) (front_at n q + 1) (back_at n q) (end_at n q)
  unfolding pop
  pop-Moves n q v = record {
    valid = record {
      begin_fits = up_fits n q.begin_pos v.begin_fits;
      back_fits = v.back_fits;
      end_fits = v.end_fits;
    };
    front_moves = up_at n q.begin_chunk q.begin_pos v.begin_fits;
    back_moves = refl;
    end_moves = refl;
    memory_kept = refl;
  }
