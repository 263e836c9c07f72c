-- ===== src/Timers/Map.antt =====
-- The map of timers as an ordered list: what an insertion keeps.
use Prim.{Unit, tt}
use zeromq.Prelude.{
  append-nil, All-map, All-append_right, ℕ, ◌≤◌, ◌<◌, ◌≡◌, ◌≢◌, refl, sym, ap, ◌∙◌, inl, inr, true,
  false, List, [], ◌∷◌, ◌++◌, All, leb, ltb, leb→le, ltb→lt, ltb→ge, arith, Bool-cases,
}
use mathlib.Core.List.{Memᴰ}
use mathlib.Core.List.Memᴰ
use zeromq.Timers.{Timer, Entry, insert, insert_behind}

abbrev pub AtLeast : ℕ → List Entry → Type 0
AtLeast k l = All (λ e. k ≤ e.0) l

abbrev pub IsSorted : List Entry → Type 0
IsSorted [] = Unit
IsSorted (e ∷ l) = AtLeast e.0 l × IsSorted l

abbrev pub Absent : ℕ → List Entry → Type 0
Absent id l = All (λ e. id ≢ e.1.timer_id) l

-- No two timers have the same id.
abbrev pub IsDistinct : List Entry → Type 0
IsDistinct [] = Unit
IsDistinct (e ∷ l) = Absent e.1.timer_id l × IsDistinct l

module _ (when : ℕ) (t : Timer) where
  pub insert-All :
      (P : Entry → Type 0) (l : List Entry) → P (when, t) → All P l → All P (insert when t l)
  insert-All P [] p h = (p, tt)
  insert-All P (e ∷ l) p (q, h) = elim (Bool-cases (leb e.0 when)) [
    | inl y ↦ rw y (q, insert-All P l p h)
    | inr n ↦ rw n (p, (q, h))
  ]

  pub insert-IsSorted : (l : List Entry) → IsSorted l → IsSorted (insert when t l)
  insert-IsSorted [] h = (tt, tt)
  insert-IsSorted (e ∷ l) (b, h) = elim (Bool-cases (leb e.0 when)) [
    | inl y ↦ rw y (insert-All (λ x. e.0 ≤ x.0) l (leb→le e.0 when y) b, insert-IsSorted l h)
    | inr n ↦
        let le : when ≤ e.0 = ground arith in
        rw n ((le, All-map {P = λ x. e.0 ≤ x.0} (λ x m. omega arith) l b), (b, h))
  ]

  pub insert-IsDistinct :
      (l : List Entry) → Absent t.timer_id l → IsDistinct l → IsDistinct (insert when t l)
  insert-IsDistinct [] a h = (tt, tt)
  insert-IsDistinct (e ∷ l) (n, a) (b, h) = elim (Bool-cases (leb e.0 when)) [
    | inl y ↦ rw y (
      insert-All (λ x. e.1.timer_id ≢ x.1.timer_id) l (λ same. n (sym same)) b,
      insert-IsDistinct l a h,
    )
    | inr no_later ↦ rw no_later ((n, a), (b, h))
  ]

  pub mem-insert : (x : Entry) (l : List Entry) → Memᴰ x l → Memᴰ x (insert when t l)
  mem-insert x (e ∷ l) m = elim (Bool-cases (leb e.0 when)) [
    | inl y ↦ elim (Memᴰ.cases_cons m) [
      | inl same ↦ rw y (Memᴰ.head same)
      | inr behind ↦ rw y (Memᴰ.tail (mem-insert x l behind))
    ]
    | inr n ↦ rw n (Memᴰ.tail m)
  ]
  mem-insert x [] m = absurd (Memᴰ.not-nil m)

  pub mem-insert_self : (l : List Entry) → Memᴰ (when, t) (insert when t l)
  mem-insert_self [] = Memᴰ.head refl
  mem-insert_self (e ∷ l) = elim (Bool-cases (leb e.0 when)) [
    | inl y ↦ rw y (Memᴰ.tail (mem-insert_self l))
    | inr n ↦ rw n (Memᴰ.head refl)
  ]

  insert-append :
      (done l : List Entry)
      → All (λ e. e.0 ≤ when) done
      → insert when t (done ++ l) ≡ done ++ insert when t l
  insert-append [] l h = refl
  insert-append (e ∷ done) l (p, h) =
      let y : leb e.0 when ≡ true = ground arith in rw (y, insert-append done l h) refl

  insert_before :
      (done : List Entry) (e : Entry) (l : List Entry)
      → when < e.0
      → insert when t (done ++ e ∷ l) ≡ insert when t done ++ e ∷ l
  insert_before [] e l h = let n : leb e.0 when ≡ false = ground arith in rw n refl
  insert_before (d ∷ done) e l h = elim (Bool-cases (leb d.0 when)) [
    | inl y ↦ rw (y, insert_before done e l h) refl
    | inr n ↦ rw n refl
  ]

  -- What comes before an entry of an ordered list is not later.
  pub IsSorted-before :
      (done : List Entry) (e : Entry) (l : List Entry)
      → IsSorted (done ++ e ∷ l)
      → All (λ d. d.0 ≤ e.0) done
  IsSorted-before [] e l h = tt
  IsSorted-before (d ∷ done) e l (b, h) =
      ((All-append_right (λ x. d.0 ≤ x.0) done (e ∷ l) b).0, IsSorted-before done e l h)

  -- Wherever the iterator is, the entry comes to its place in the whole map.
  pub insert_behind_lem :
      (done l : List Entry)
      → IsSorted (done ++ l)
      → (insert_behind when t done l).0 ++ (insert_behind when t done l).1
        ≡ insert when t (done ++ l)
  unfolding insert_behind
  insert_behind_lem done [] h =
      append-nil (insert when t done) ∙ ap (insert when t) (sym (append-nil done))
  insert_behind_lem done (e ∷ l) h = elim (Bool-cases (ltb when e.0)) [
    | inl before ↦ rw before (sym (insert_before done e l (ltb→lt when e.0 before)))
    | inr behind ↦
        let le = ltb→ge when e.0 behind in
        let early =
          All-map {P = λ d. d.0 ≤ e.0} (λ d m. omega arith) done (IsSorted-before done e l h) in
        rw behind (sym (insert-append done (e ∷ l) early))
  ]

pub All-without {κ} :
    (P : Entry → Type κ) (done : List Entry) (e : Entry) (l : List Entry)
    → All P (done ++ e ∷ l)
    → All P (done ++ l)
All-without P [] e l (p, h) = h
All-without P (d ∷ done) e l (p, h) = (p, All-without P done e l h)

-- An ordered list with distinct ids stays so without one entry.
pub IsSorted-without :
    (done : List Entry) (e : Entry) (l : List Entry)
    → IsSorted (done ++ e ∷ l)
    → IsSorted (done ++ l)
IsSorted-without [] e l (b, h) = h
IsSorted-without (d ∷ done) e l (b, h) =
    (All-without (λ x. d.0 ≤ x.0) done e l b, IsSorted-without done e l h)

pub IsDistinct-without :
    (done : List Entry) (e : Entry) (l : List Entry)
    → IsDistinct (done ++ e ∷ l)
    → IsDistinct (done ++ l)
IsDistinct-without [] e l (a, h) = h
IsDistinct-without (d ∷ done) e l (a, h) =
    (All-without (λ x. d.1.timer_id ≢ x.1.timer_id) done e l a, IsDistinct-without done e l h)

-- The ids of the others are other ids.
pub IsDistinct-Absent :
    (done : List Entry) (e : Entry) (l : List Entry)
    → IsDistinct (done ++ e ∷ l)
    → Absent e.1.timer_id (done ++ l)
IsDistinct-Absent [] e l (a, h) = a
IsDistinct-Absent (d ∷ done) e l (a, h) = (
  (λ same. (All-append_right (λ x. d.1.timer_id ≢ x.1.timer_id) done (e ∷ l) a).0 (sym same)),
  IsDistinct-Absent done e l h,
)
