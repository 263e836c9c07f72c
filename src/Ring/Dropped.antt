-- ===== src/Ring/Dropped.antt =====
-- A pipe that cannot be used now goes behind the active ones.
use zeromq.Prelude.{
  ℕ, ◌-◌, ◌<◌, ◌≡◌, ◌≢◌, refl, ◌∙◌, false, inl, inr, arith, ltb, ◌==◌, if◌then◌else◌, Bool-cases,
  ltb→lt, ltb→ge,
}
use mathlib.Core.Path.{subst}
use zeromq.Array.{once, swap}
use zeromq.Ring.{Ring, IsValid, IsActive, deactivate, pass_over}
use zeromq.Ring.Steps.{deactivate-IsValid}
use zeromq.Ring.Current.{current_pipe}

-- The current pipe is not active any more, and every other pipe that was active still is.
pub record Dropped (r r' : Ring) : Type 0 where
  pub valid : IsValid r'
  pub one_less : r'.active ≡ r.active - 1
  pub stays : (q : ℕ) → IsActive q r → q ≢ current_pipe r → IsActive q r'
  pub was : (q : ℕ) → IsActive q r' → IsActive q r × (q ≢ current_pipe r)

module _ (r : Ring) (v : IsValid r) (h : r.current < r.active) where
  pub deactivate-Dropped : Dropped r (deactivate r.current r)
  unfolding swap
  deactivate-Dropped = record {
    valid = deactivate-IsValid r.current r h v;
    one_less = refl;
    stays = λ q (i, hi, e) ne. (
      if i == r.active - 1 then r.current else i,
      let f = v.fits in grind arith,
      let f = v.fits in grind arith,
    );
    was = λ q (i, hi, e). (
      (if i == r.current then r.active - 1 else i, grind arith, grind arith),
      λ same.
          (let f = v.fits in
            let ei = v.indexed.at i (omega arith) in
            let ec = v.indexed.at r.current (omega arith) in
            let el = v.indexed.at (r.active - 1) (omega arith) in grind arith),
    );
  }

  pub pass_over-Dropped : Dropped r (pass_over r)
  unfolding swap
  pass_over-Dropped = elim (Bool-cases (ltb r.current (r.active - 1))) [
    | inl lt ↦
        let below = ltb→lt r.current (r.active - 1) lt in
        let ne : (r.current == r.active - 1) ≡ false = grind arith in
        let eq : deactivate r.current r ≡ pass_over r = rw (lt, ne) refl in
        subst (Dropped r) eq deactivate-Dropped
    | inr ge ↦
        let last = ltb→ge r.current (r.active - 1) ge in
        let f = v.fits in
        let cut : Ring = record r { active = r.active - 1; current = 0 } in
        let d : Dropped r cut = record {
          valid = record { indexed = v.indexed; fits = omega arith; inside = omega arith };
          one_less = refl;
          stays = λ q (i, hi, e) ne. (i, (grind arith), e);
          was = λ q (i, hi, e). (
            (i, omega arith, e),
            λ same.
                let k = once r.pipes v.indexed i r.current (omega arith) (omega arith) (e ∙ same) in
                omega arith,
          );
        } in
        rw ge d
  ]
