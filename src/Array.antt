-- ===== src/Array.antt =====
-- src/array.hpp: `array_t`, a vector of objects that know their place in it.
-- An object is a number. `items i` is `items [i]`, which stands for an element below `size`, and
-- `array_index` has the index that each object stores. No pointer is NULL.
use zeromq.Prelude.{
  ℕ, ◌+◌, ◌-◌, ◌<◌, ◌≡◌, ◌≢◌, ap, sym, ◌∙◌, inl, inr, arith, ◌==◌, if◌then◌else◌, Bool-cases,
}

pub record Array : Type 0 where
  pub size : ℕ
  pub items : ℕ → ℕ
  pub array_index : ℕ → ℕ

abbrev pub empty_array : Array
empty_array = record { size = 0; items = λ _. 0; array_index = λ _. 0 }

abbrev pub set_at : ℕ → ℕ → (ℕ → ℕ) → ℕ → ℕ
set_at k v f x = if x == k then v else f x

unfoldable pub push_back : ℕ → Array → Array
push_back p a = record {
  size = a.size + 1;
  items = set_at a.size p a.items;
  array_index = set_at p a.size a.array_index;
}

unfoldable pub swap : ℕ → ℕ → Array → Array
swap i j a = record a {
  items = set_at j (a.items i) (set_at i (a.items j) a.items);
  array_index = set_at (a.items j) i (set_at (a.items i) j a.array_index);
}

abbrev pub erase_at : ℕ → Array → Array
erase_at i a =
    let back = a.items (a.size - 1) in
    record {
      size = a.size - 1;
      items = set_at i back a.items;
      array_index = set_at back i a.array_index;
    }

unfoldable pub erase : ℕ → Array → Array
erase p a = erase_at (a.array_index p) a

-- Every element stores its place.
pub record IsIndexed (a : Array) : Type 0 where
  pub at : (i : ℕ) → i < a.size → a.array_index (a.items i) ≡ i

-- The object is an element.
abbrev pub Holds : ℕ → Array → Type 0
Holds p a = (a.array_index p < a.size) × (a.items (a.array_index p) ≡ p)

pub once :
    (a : Array) → IsIndexed a → (i j : ℕ) → i < a.size → j < a.size → a.items i ≡ a.items j → i ≡ j
once a x i j hi hj e = sym (x.at i hi) ∙ ap a.array_index e ∙ x.at j hj

pub swap-IsIndexed :
    (i j : ℕ) (a : Array) → i < a.size → j < a.size → IsIndexed a → IsIndexed (swap i j a)
unfolding swap
swap-IsIndexed i j a hi hj x = record {
  at = λ k hk. (let ei = x.at i hi in let ej = x.at j hj in let ek = x.at k hk in grind arith);
}

pub push_back-IsIndexed :
    (p : ℕ) (a : Array)
    → ((i : ℕ) → i < a.size → a.items i ≢ p)
    → IsIndexed a
    → IsIndexed (push_back p a)
unfolding push_back
push_back-IsIndexed p a fresh x = record {
  at = λ k hk. (elim (Bool-cases (k == a.size)) [
    | inl e ↦ grind arith
    | inr ne ↦
        let below : k < a.size = grind arith in
        let ek = x.at k below in let other = fresh k below in grind arith
  ]);
}

pub erase-IsIndexed : (p : ℕ) (a : Array) → Holds p a → IsIndexed a → IsIndexed (erase p a)
unfolding erase
erase-IsIndexed p a (h, e) x = record {
  at = λ k hk.
      (let ek = x.at k (omega arith) in let el = x.at (a.size - 1) (omega arith) in grind arith);
}

pub swap-Holds :
    (q i j : ℕ) (a : Array)
    → i < a.size
    → j < a.size
    → IsIndexed a
    → Holds q a
    → Holds q (swap i j a)
unfolding swap
swap-Holds q i j a hi hj x (hq, eq) =
    let ei = x.at i hi in let ej = x.at j hj in (grind arith, grind arith)
