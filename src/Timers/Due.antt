-- ===== src/Timers/Due.antt =====
-- Which timers are due, and which are cancelled.
use zeromq.Prelude.{
  ℕ, suc, ◌≤◌, ◌<◌, ◌≡◌, ◌≢◌, refl, sym, inl, inr, false, not, ◌&&◌, ◌||◌, List, [], ◌∷◌, All,
  length, leb, ltb, ◌==◌, arith, Bool-cases, if◌then◌else◌,
}
use zeromq.Timers.{Timer, Entry, insert, find, erase}
use zeromq.Timers.Map.{Absent}

-- The timers whose time has come and that are not cancelled, in the order of the map.
abbrev pub due : ℕ → List ℕ → List Entry → List Timer
due now c [] = []
due now c (e ∷ l) =
    if leb e.0 now && not (find e.1.timer_id c) then e.1 ∷ due now c l else due now c l

-- The entries that are not cancelled and whose time is to come.
abbrev pub waiting : ℕ → List ℕ → List Entry → List Entry
waiting now c [] = []
waiting now c (e ∷ l) =
    if ltb now e.0 && not (find e.1.timer_id c) then e ∷ waiting now c l else waiting now c l

-- How many entries the loop may still take off.
abbrev pub to_take : ℕ → List ℕ → List Entry → ℕ
to_take now c [] = 0
to_take now c (e ∷ l) =
    if leb e.0 now || find e.1.timer_id c then suc (to_take now c l) else to_take now c l

pub find-erase_ne : (id x : ℕ) (c : List ℕ) → x ≢ id → find x (erase id c) ≡ find x c
find-erase_ne id x [] n = refl
find-erase_ne id x (y ∷ c) n = elim (Bool-cases (id == y)) [
  | inl e ↦ let other : (x == y) ≡ false = ground arith in rw (e, other) (find-erase_ne id x c n)
  | inr e ↦ rw (e, find-erase_ne id x c n) refl
]

pub find-erase : (id x : ℕ) (c : List ℕ) → find x c ≡ false → find x (erase id c) ≡ false
find-erase id x [] h = refl
find-erase id x (y ∷ c) h = elim (Bool-cases (id == y)) [
  | inl e ↦ rw e (find-erase id x c (ground arith))
  | inr e ↦
      let ne : (x == y) ≡ false = ground arith in rw (e, ne) (find-erase id x c (ground arith))
]

pub due-erase :
    (now id : ℕ) (c : List ℕ) (l : List Entry) → Absent id l → due now (erase id c) l ≡ due now c l
due-erase now id c [] a = refl
due-erase now id c (e ∷ l) (n, a) =
    rw (find-erase_ne id e.1.timer_id c (λ same. n (sym same)), due-erase now id c l a) refl

pub to_take-erase :
    (now id : ℕ) (c : List ℕ) (l : List Entry) → to_take now (erase id c) l ≤ to_take now c l
to_take-erase now id c [] = omega arith
to_take-erase now id c (e ∷ l) =
    let k = to_take-erase now id c l in
    elim (Bool-cases (find e.1.timer_id c)) [
      | inl y ↦ elim (Bool-cases (leb e.0 now || find e.1.timer_id (erase id c))) [
        | inl a ↦ rw (a, y) (ground arith)
        | inr a ↦ rw (a, y) (ground arith)
      ]
      | inr n ↦ rw (n, find-erase id e.1.timer_id c n) (ground arith)
    ]

pub to_take-le : (now : ℕ) (c : List ℕ) (l : List Entry) → to_take now c l ≤ length l
to_take-le now c [] = omega arith
to_take-le now c (e ∷ l) = let k = to_take-le now c l in ground arith

-- What is to come is not due, and an entry that is put in for later is not due.
pub due_none : (now : ℕ) (c : List ℕ) (l : List Entry) → All (λ e. now < e.0) l → due now c l ≡ []
due_none now c [] h = refl
due_none now c (e ∷ l) (p, h) =
    let n : leb e.0 now ≡ false = ground arith in rw n (due_none now c l h)

module _ (now when : ℕ) (t : Timer) (c : List ℕ) (after : now < when) where
  not_due : leb when now ≡ false
  not_due = ground arith

  pub due-insert : (l : List Entry) → due now c (insert when t l) ≡ due now c l
  due-insert [] = rw not_due refl
  due-insert (e ∷ l) = elim (Bool-cases (leb e.0 when)) [
    | inl y ↦ rw (y, due-insert l) refl
    | inr n ↦ rw (n, not_due) refl
  ]

  pub to_take-insert :
      find t.timer_id c ≡ false
      → (l : List Entry) → to_take now c (insert when t l) ≡ to_take now c l
  to_take-insert live [] = rw (not_due, live) refl
  to_take-insert live (e ∷ l) = elim (Bool-cases (leb e.0 when)) [
    | inl y ↦ rw (y, to_take-insert live l) refl
    | inr n ↦ rw (n, not_due, live) refl
  ]
