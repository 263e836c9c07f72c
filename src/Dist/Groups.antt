-- ===== src/Dist/Groups.antt =====
-- The groups of pipes lie in each other, and each operation keeps them so.
use mathlib.Core.Path.{subst}
use zeromq.Prelude.{ℕ, ◌-◌, ◌<◌, ◌≤◌, ◌≡◌, ◌≢◌, refl, sym, ◌∙◌, arith, ◌==◌, if◌then◌else◌}
use zeromq.Array.{Array, IsIndexed, once, swap, swap-IsIndexed}
use zeromq.Dist.{Dist, drop_out}

pub record IsValid (d : Dist) : Type 0 where
  pub indexed : IsIndexed d.pipes
  pub matching_fits : d.matching ≤ d.active
  pub active_fits : d.active ≤ d.eligible
  pub eligible_fits : d.eligible ≤ d.pipes.size

-- An element that is exchanged is where the other was.
pub index_swap :
    (i j : ℕ) (a : Array)
    → i < a.size
    → j < a.size
    → IsIndexed a
    → (swap i j a).array_index (a.items i) ≡ j
unfolding swap
index_swap i j a hi hj x = let ei = x.at i hi in let ej = x.at j hj in grind arith

-- The pipes that still have to get the message.
abbrev pub Waits : ℕ → ℕ → Dist → Type 0
Waits q i d = (j : ℕ) × (i ≤ j) × (j < d.matching) × (d.pipes.items j ≡ q)

-- What is left when the pipe at `i` has refused.
pub record Without (i : ℕ) (d d' : Dist) : Type 0 where
  pub valid : IsValid d'
  pub one_less : d'.matching ≡ d.matching - 1
  pub stays : (q : ℕ) → Waits q i d → q ≢ d.pipes.items i → Waits q i d'
  pub was : (q : ℕ) → Waits q i d' → Waits q i d × (q ≢ d.pipes.items i)

module _ (d : Dist) (i : ℕ) (v : IsValid d) (h : i < d.matching) where
  abbrev p : ℕ
  p = d.pipes.items i

  abbrev a : Array
  a = swap (d.pipes.array_index p) (d.matching - 1) d.pipes

  abbrev b : Array
  b = swap (a.array_index p) (d.active - 1) a

  abbrev a' : Array
  a' = swap i (d.matching - 1) d.pipes

  abbrev b' : Array
  b' = swap (d.matching - 1) (d.active - 1) a'

  abbrev c' : Array
  c' = swap (d.active - 1) (d.eligible - 1) b'

  -- The same with the places that the pipe has.
  drop_out_at : drop_out p d ≡ record d {
    pipes = c';
    matching = d.matching - 1;
    active = d.active - 1;
    eligible = d.eligible - 1;
  }
  unfolding drop_out
  drop_out_at =
      let f = v.matching_fits in
      let g = v.active_fits in
      let k = v.eligible_fits in
      rw
        (
          v.indexed.at i (omega arith),
          index_swap i (d.matching - 1) d.pipes (omega arith) (omega arith) v.indexed,
        )
        refl

  out : Dist
  unfolding swap
  out = record d {
    pipes = c';
    matching = d.matching - 1;
    active = d.active - 1;
    eligible = d.eligible - 1;
  }

  out-IsValid : IsValid out
  unfolding out swap
  out-IsValid =
      let f = v.matching_fits in
      let g = v.active_fits in
      let k = v.eligible_fits in
      let xa = swap-IsIndexed i (d.matching - 1) d.pipes (omega arith) (omega arith) v.indexed in
      let xb = swap-IsIndexed (d.matching - 1) (d.active - 1) a' (omega arith) (omega arith) xa in
      record {
        indexed = swap-IsIndexed (d.active - 1) (d.eligible - 1) b' (omega arith) (omega arith) xb;
        matching_fits = omega arith;
        active_fits = omega arith;
        eligible_fits = omega arith;
      }

  in_front : (j : ℕ) → j < d.matching - 1 → c'.items j ≡ a'.items j
  unfolding swap
  in_front j hj = let f = v.matching_fits in let g = v.active_fits in grind arith

  out-Without : Without i d out
  unfolding out swap
  out-Without = record {
    valid = out-IsValid;
    one_less = refl;
    stays = λ q (j, above, below, e) ne. (
      (if j == d.matching - 1 then i else j),
      grind arith,
      grind arith,
      in_front (if j == d.matching - 1 then i else j) (grind arith) ∙ (grind arith),
    );
    was = λ q (j, above, below, e).
        (let e' = sym (in_front j below) ∙ e in
          let old = if j == i then d.matching - 1 else j in
          let there : d.pipes.items old ≡ q = grind arith in
          let f = v.matching_fits in
          let g = v.active_fits in
          let k = v.eligible_fits in
          let inside : old < d.matching = grind arith in
          (
            (old, grind arith, inside, there),
            λ same.
                let z = once d.pipes v.indexed old i (omega arith) (omega arith) (there ∙ same) in
                grind arith,
          ));
  }

  pub drop_out-Without : Without i d (drop_out p d)
  unfolding out
  drop_out-Without = subst (Without i d) (sym drop_out_at) out-Without
