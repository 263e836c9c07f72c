-- ===== src/Timers/Timeout.antt =====
-- `timeout` is the time up to the first timer that is not cancelled.
use zeromq.Prelude.{
  All-map, ℕ, ◌-◌, ◌≤◌, ◌<◌, ◌≡◌, ◌≢◌, ◌↔◌, refl, sym, ap, ◌∙◌, inl, inr, ℤ, pos, negsuc, List, [],
  ◌∷◌, leb, ltb, lt→ltb, All, ◌+◌, ◌^◌, arith, Bool-cases, if◌then◌else◌,
}
use zeromq.Timers.{Timers, Entry, find, erase, first_live, timeout, to_long}
use zeromq.Timers.Map.{IsSorted, Absent, IsDistinct}
use zeromq.Timers.Due.{due, due_none, find-erase_ne}
use zeromq.Timers.Execute.{IsValid}

-- The entries that are not cancelled.
abbrev pub live : List ℕ → List Entry → List Entry
live c [] = []
live c (e ∷ l) = if find e.1.timer_id c then live c l else e ∷ live c l

-- The time up to the first of them, and -1 if there is none.
abbrev pub time_to_first : ℕ → List Entry → ℤ
time_to_first now [] = negsuc 0
time_to_first now (e ∷ l) = pos (e.0 - now)

-- Every timer ends at a time that a `long` can say from now on.
abbrev pub IsNear : ℕ → List Entry → Type 0
IsNear now l = All (λ e. e.0 < now + 2 ^ 63) l

-- What a `long` can say comes out as it is.
to_long_lem : (n : ℕ) → n < 2 ^ 63 → to_long n ≡ pos n
unfolding to_long
to_long_lem n h = rw (lt→ltb n (2 ^ 63) h) refl

wait_lem :
    (now when : ℕ)
    → when < now + 2 ^ 63
    → (if ltb now when then to_long (when - now) else pos 0) ≡ pos (when - now)
wait_lem now when h = elim (Bool-cases (ltb now when)) [
  | inl y ↦ rw y (to_long_lem (when - now) (omega arith))
  | inr n ↦ rw n (let z : when - now ≡ 0 = grind arith in ap pos (sym z))
]

live-erase : (id : ℕ) (c : List ℕ) (l : List Entry) → Absent id l → live (erase id c) l ≡ live c l
live-erase id c [] a = refl
live-erase id c (e ∷ l) (n, a) =
    rw (find-erase_ne id e.1.timer_id c (λ same. n (sym same)), live-erase id c l a) refl

-- What `timeout` finds, and what it leaves.
pub record TimedOut (now : ℕ) (s : Timers) : Type 0 where
  pub first : (timeout now s).0 ≡ time_to_first now (live s.cancelled_timers s.timers)
  pub at_once : ((timeout now s).0 ≡ pos 0) ↔ (due now s.cancelled_timers s.timers ≢ [])
  pub same_live :
      live (timeout now s).1.cancelled_timers (timeout now s).1.timers
      ≡ live s.cancelled_timers s.timers

module _ (now : ℕ) where
  first_live_lem :
      (l : List Entry) (c : List ℕ)
      → IsDistinct l
      → IsNear now l
      → ((first_live now l c).0 ≡ time_to_first now (live c l))
        × (live (first_live now l c).2 (first_live now l c).1 ≡ live c l)
  unfolding first_live
  first_live_lem [] c d _ = (refl, refl)
  first_live_lem (e ∷ l) c (a, d) (near, m) =
      let (t, k) = first_live_lem l (erase e.1.timer_id c) d m in
      let same = live-erase e.1.timer_id c l a in
      elim (Bool-cases (find e.1.timer_id c)) [
        | inl y ↦ rw y (t ∙ ap (time_to_first now) same, k ∙ same)
        | inr n ↦ rw n (wait_lem now e.0 near, rw n refl)
      ]

  due-live :
      (l : List Entry) (c : List ℕ)
      → IsSorted l
      → (time_to_first now (live c l) ≡ pos 0) ↔ (due now c l ≢ [])
  due-live [] c h = (λ e. cc, λ e. absurd (e refl))
  due-live (e ∷ l) c (b, h) = elim (Bool-cases (find e.1.timer_id c)) [
    | inl y ↦ elim (Bool-cases (leb e.0 now)) [
      | inl q ↦ rw (y, q) (due-live l c h)
      | inr q ↦ rw (y, q) (due-live l c h)
    ]
    | inr n ↦ elim (Bool-cases (leb e.0 now)) [
      | inl q ↦ rw (n, q) (λ z w. cc, λ w. ground arith)
      | inr q ↦
          let after : now < e.0 = ground arith in
          let none_there =
            due_none now c l (All-map {P = λ x. e.0 ≤ x.0} (λ x m. omega arith) l b) in
          rw (n, q, none_there) (λ z. ground arith, λ w. absurd (w refl))
    ]
  ]

-- When the map is in the order of the times, no two timers have the same id, all ids were given out, and every
-- timer ends less than 2^63 milliseconds from now: `timeout` gives the time up to the first timer that is not
-- cancelled, and -1 if there is none; it gives 0 exactly if `execute` would call a handler now; and it takes
-- only cancelled timers off.
pub timeout-TimedOut : (now : ℕ) (s : Timers) → IsValid s → IsNear now s.timers → TimedOut now s
unfolding timeout
timeout-TimedOut now s v near =
    let (t, k) = first_live_lem now s.timers s.cancelled_timers v.distinct near in
    record {
      first = t;
      at_once = rw t (due-live now s.timers s.cancelled_timers v.sorted);
      same_live = k;
    }
