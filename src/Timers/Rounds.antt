-- ===== src/Timers/Rounds.antt =====
-- The rounds of the loop of `execute`: what each does to the map, and what it leaves to the rest of the loop.
use Prim.{tt}
use zeromq.Prelude.{
  append-nil, append_assoc, All-append, All-append_right, ℕ, ◌+◌, ◌^◌, ◌≤◌, ◌<◌, ◌≡◌, ◌≢◌, refl,
  sym, ap, ◌∙◌, inl, inr, true, false, List, [], ◌∷◌, ◌++◌, All, leb, ltb, arith, Bool-cases,
}
use mathlib.Core.List.{Memᴰ}
use mathlib.Core.List.Memᴰ
use zeromq.Timers.{Timer, Entry, later, insert, find, erase, Loop, insert_behind}
use zeromq.Timers.Map.{
  IsSorted, IsDistinct, All-without, insert-All, insert-IsSorted, insert-IsDistinct, mem-insert,
  mem-insert_self, insert_behind_lem, IsSorted-without, IsDistinct-without, IsDistinct-Absent,
}
use zeromq.Timers.Due.{due, to_take, find-erase, due-erase, due_none, due-insert, to_take-insert}

-- The interval is positive, and its end is no later than the clock can count.
pub record IsShort (now : ℕ) (t : Timer) : Type 0 where
  pub positive : 0 < t.interval
  pub counted : now + t.interval < 2 ^ 64

later_after : (now : ℕ) (t : Timer) → IsShort now t → now < later now t.interval
later_after now t h = omega (arith, h.positive, h.counted)

abbrev pub whole : Loop → List Entry
whole s = s.done ++ s.rest

pub record Fits (now : ℕ) (s : Loop) : Type 0 where
  pub sorted : IsSorted (whole s)
  pub distinct : IsDistinct (whole s)
  pub short : All (λ e. IsShort now e.1) (whole s)
  pub early : All (λ e. now < e.0) s.done

-- What the end of the loop owes to a state in it.
pub record Ends (now : ℕ) (s r : Loop) : Type 0 where
  pub called : r.called ≡ s.called ++ due now s.cancelled s.rest
  pub sorted : IsSorted (whole r)
  pub distinct : IsDistinct (whole r)
  pub known :
      (b : ℕ) → All (λ e. e.1.timer_id ≤ b) (whole s) → All (λ e. e.1.timer_id ≤ b) (whole r)
  pub none_due : due now r.cancelled (whole r) ≡ []
  pub keeps :
      (e : Entry)
      → Memᴰ e (whole s)
      → now < e.0
      → find e.1.timer_id s.cancelled ≡ false
      → Memᴰ e (whole r)
  pub again : All (λ t. Memᴰ (later now t.interval, t) (whole r)) (due now s.cancelled s.rest)

-- The end, where nothing from the iterator on is due.
pub ends_here : (now : ℕ) (s : Loop) → Fits now s → All (λ e. now < e.0) s.rest → Ends now s s
ends_here now s f h =
    let none = due_none now s.cancelled s.rest h in
    record {
      called = rw none (sym (append-nil s.called));
      sorted = f.sorted;
      distinct = f.distinct;
      known = λ b h. h;
      none_due =
          due_none now s.cancelled (whole s) (All-append (λ e. now < e.0) s.done s.rest f.early h);
      keeps = λ e m l c. m;
      again = rw none tt;
    }

module _ (now : ℕ) (s : Loop) (e : Entry) (l : List Entry) where
  abbrev pub here : Loop
  here = record s { rest = e ∷ l }

  -- A cancelled timer is taken off.
  abbrev pub without : Loop
  without = record s { rest = l; cancelled = erase e.1.timer_id s.cancelled }

  pub without-Fits : Fits now here → Fits now without
  without-Fits f = record {
    sorted = IsSorted-without s.done e l f.sorted;
    distinct = IsDistinct-without s.done e l f.distinct;
    short = All-without (λ x. IsShort now x.1) s.done e l f.short;
    early = f.early;
  }

  others_stay :
      (x : Entry)
      → find x.1.timer_id s.cancelled ≡ false
      → find e.1.timer_id s.cancelled ≡ true
      → Memᴰ x (s.done ++ e ∷ l)
      → Memᴰ x (s.done ++ l)
  others_stay x live dead m = elim (Memᴰ.append_cases s.done m) [
    | inl before ↦ Memᴰ.append_left l before
    | inr from_here ↦ elim (Memᴰ.cases_cons from_here) [
      | inl same ↦ absurd (let k = ap (λ (y : Entry). find y.1.timer_id s.cancelled) same in cc)
      | inr behind ↦ Memᴰ.append_right s.done behind
    ]
  ]

  pub without-Ends :
      (r : Loop)
      → Fits now here
      → find e.1.timer_id s.cancelled ≡ true
      → Ends now without r
      → Ends now here r
  without-Ends r f dead k =
      let absent =
        All-append_right (λ x. e.1.timer_id ≢ x.1.timer_id) s.done l
          (IsDistinct-Absent s.done e l f.distinct) in
      let same = due-erase now e.1.timer_id s.cancelled l absent in
      let skipped : due now s.cancelled (e ∷ l) ≡ due now (erase e.1.timer_id s.cancelled) l =
        elim (Bool-cases (leb e.0 now)) [
          | inl y ↦ rw (dead, y, same) refl
          | inr n ↦ rw (dead, n, same) refl
        ] in
      record {
        called = k.called ∙ ap (λ d. s.called ++ d) (sym skipped);
        sorted = k.sorted;
        distinct = k.distinct;
        known = λ b h. k.known b (All-without (λ x. x.1.timer_id ≤ b) s.done e l h);
        none_due = k.none_due;
        keeps = λ x m a live.
            k.keeps x (others_stay x live dead m) a
              (find-erase e.1.timer_id x.1.timer_id s.cancelled live);
        again = rw skipped k.again;
      }

  -- A timer that is due is run and put in again.
  abbrev when : ℕ
  when = later now e.1.interval

  abbrev pub rerun : Loop
  rerun = record s {
    done = (insert_behind when e.1 s.done l).0;
    rest = (insert_behind when e.1 s.done l).1;
    called = s.called ++ e.1 ∷ [];
  }

  due_same : now < when → (c : List ℕ) → due now c rerun.rest ≡ due now c l
  unfolding insert_behind
  due_same a c = go l
    where
      go : (l : List Entry) → due now c (insert_behind when e.1 s.done l).1 ≡ due now c l
      go [] = refl
      go (x ∷ l) = elim (Bool-cases (ltb when x.0)) [
        | inl y ↦ rw y refl
        | inr n ↦ rw n (due-insert now when e.1 c a (x ∷ l))
      ]

  pub to_take_same :
      now < when
      → find e.1.timer_id s.cancelled ≡ false
      → to_take now s.cancelled rerun.rest ≡ to_take now s.cancelled l
  unfolding insert_behind
  to_take_same a live = go l
    where
      go :
          (l : List Entry)
          → to_take now s.cancelled (insert_behind when e.1 s.done l).1 ≡ to_take now s.cancelled l
      go [] = refl
      go (x ∷ l) = elim (Bool-cases (ltb when x.0)) [
        | inl y ↦ rw y refl
        | inr n ↦ rw n (to_take-insert now when e.1 s.cancelled a live (x ∷ l))
      ]

  early_after : now < when → All (λ x. now < x.0) s.done → All (λ x. now < x.0) rerun.done
  unfolding insert_behind
  early_after a h = go l
    where
      go : (l : List Entry) → All (λ x. now < x.0) (insert_behind when e.1 s.done l).0
      go [] = insert-All when e.1 (λ x. now < x.0) s.done a h
      go (x ∷ l) = elim (Bool-cases (ltb when x.0)) [
        | inl y ↦ rw y (insert-All when e.1 (λ x. now < x.0) s.done a h)
        | inr n ↦ rw n h
      ]

  module _ (f : Fits now here) where
    head-IsShort : IsShort now e.1
    head-IsShort = (All-append_right (λ x. IsShort now x.1) s.done (e ∷ l) f.short).0

    pub head_after : now < when
    head_after = later_after now e.1 head-IsShort

    all_same : whole rerun ≡ insert when e.1 (s.done ++ l)
    all_same = insert_behind_lem when e.1 s.done l (IsSorted-without s.done e l f.sorted)

    pub rerun-Fits : Fits now rerun
    rerun-Fits = record {
      sorted =
          rw all_same
            (insert-IsSorted when e.1 (s.done ++ l) (IsSorted-without s.done e l f.sorted));
      distinct = rw all_same (
          insert-IsDistinct when e.1 (s.done ++ l) (IsDistinct-Absent s.done e l f.distinct)
            (IsDistinct-without s.done e l f.distinct));
      short = rw all_same (
          insert-All when e.1 (λ x. IsShort now x.1) (s.done ++ l) head-IsShort
            (All-without (λ x. IsShort now x.1) s.done e l f.short));
      early = early_after head_after f.early;
    }

    rerun_keeps :
        (x : Entry) → e.0 ≤ now → now < x.0 → Memᴰ x (s.done ++ e ∷ l) → Memᴰ x (whole rerun)
    rerun_keeps x le a m = rw all_same (
        mem-insert when e.1 x (s.done ++ l) (elim (Memᴰ.append_cases s.done m) [
          | inl before ↦ Memᴰ.append_left l before
          | inr from_here ↦ elim (Memᴰ.cases_cons from_here) [
            | inl same ↦ absurd (let k = ap (λ (y : Entry). y.0) same in omega arith)
            | inr behind ↦ Memᴰ.append_right s.done behind
          ]
        ]))

    rerun_known :
        (b : ℕ)
        → All (λ x. x.1.timer_id ≤ b) (s.done ++ e ∷ l)
        → All (λ x. x.1.timer_id ≤ b) (whole rerun)
    rerun_known b h = rw all_same (
        insert-All when e.1 (λ x. x.1.timer_id ≤ b) (s.done ++ l)
          (All-append_right (λ x. x.1.timer_id ≤ b) s.done (e ∷ l) h).0
          (All-without (λ x. x.1.timer_id ≤ b) s.done e l h))

    pub rerun-Ends :
        (r : Loop)
        → find e.1.timer_id s.cancelled ≡ false
        → e.0 ≤ now
        → Ends now rerun r
        → Ends now here r
    rerun-Ends r live le k =
        let is_due : leb e.0 now ≡ true = ground arith in
        let same = due_same head_after s.cancelled in
        let first : due now s.cancelled (e ∷ l) ≡ e.1 ∷ due now s.cancelled l =
          rw (live, is_due) refl in
        let put : Memᴰ (when, e.1) (whole rerun) =
          rw all_same (mem-insert_self when e.1 (s.done ++ l)) in
        record {
          called = rw first (
              k.called
              ∙ append_assoc s.called (e.1 ∷ []) (due now s.cancelled rerun.rest)
              ∙ ap (λ d. s.called ++ e.1 ∷ d) same);
          sorted = k.sorted;
          distinct = k.distinct;
          known = λ b h. k.known b (rerun_known b h);
          none_due = k.none_due;
          keeps = λ x m a c. k.keeps x (rerun_keeps x le a m) a c;
          again = rw first (k.keeps (when, e.1) put head_after live, rw same at k.again);
        }
