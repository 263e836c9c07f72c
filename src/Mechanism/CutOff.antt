-- ===== src/Mechanism/CutOff.antt =====
-- What `parse_metadata` says of metadata whose last property is cut off.
use zeromq.Prelude.{
  append_assoc, length-append, ℕ, zero, suc, ◌^◌, ◌<◌, ◌≤◌, ◌≡◌, refl, ap, ◌∙◌, Bool, true, false,
  List, [], ◌∷◌, ◌++◌, length, drop-length, All, ltb, lt→ltb, ge→ltb, arith, ◌==◌,
  drop-append_exact,
}
use zeromq.Wire.{put_uint32, get_uint32-put_uint32}
use zeromq.Mechanism.{
  Mechanism, Rc, ok, eproto, einval, eacces, eagain, efsm, Dict, add_property, check_property,
  store_property, unless_failed, parse, parse_metadata,
}
use zeromq.Mechanism.Metadata.{
  Fits, add_all, accept_all, length-put_uint32, parse_round, regroup, length-add_property,
}

-- What goes on has not failed.
unless_failed_ok :
    (rc : Rc) (m m' : Mechanism) (rest : Rc × Mechanism)
    → unless_failed rc m rest ≡ (ok, m')
    → (rc ≡ ok) × (rest ≡ (ok, m'))
unfolding unless_failed
unless_failed_ok ok m m' rest e = (refl, e)
unless_failed_ok eproto m m' rest e = absurd cc
unless_failed_ok einval m m' rest e = absurd cc
unless_failed_ok eacces m m' rest e = absurd cc
unless_failed_ok eagain m m' rest e = absurd cc
unless_failed_ok efsm m m' rest e = absurd cc

-- Properties that are accepted, with something behind them: `parse` comes to it.
parse_on :
    (n : ℕ) (zap_flag : Bool) (ps : Dict) (tail : List ℕ) (m m' : Mechanism)
    → All Fits ps
    → length (add_all ps ++ tail) ≤ n
    → accept_all zap_flag ps m ≡ (ok, m')
    → (k : ℕ) × (length tail ≤ k)
      × (parse n zap_flag (add_all ps ++ tail) m ≡ parse k zap_flag tail m')
unfolding accept_all unless_failed
parse_on n zap_flag [] tail m m' f l e =
    let same : m ≡ m' = ap (λ (x : Rc × Mechanism). x.1) e in
    (n, l, ap (parse n zap_flag tail) same)
parse_on zero zap_flag (p ∷ ps) tail m m' (f, fs) l e =
    let k = length-add_property p.0 p.1 (add_all ps) in
    let k' = length-append (add_property p.0 p.1 ++ add_all ps) tail in absurd (omega arith)
parse_on (suc n) zap_flag (p ∷ ps) tail m m' (f, fs) l e =
    let rest = add_all ps ++ tail in
    let m1 = (check_property p.0 p.1 m).1 in
    let next = store_property zap_flag p.0 p.1 m1 in
    let (good, goes) =
      unless_failed_ok (check_property p.0 p.1 m).0 m1 m' (accept_all zap_flag ps next) e in
    let k = length-add_property p.0 p.1 rest in
    let group = append_assoc (add_property p.0 p.1) (add_all ps) tail in
    let fewer : length rest ≤ n = omega (arith, k, ap length group) in
    let (fuel, enough, eq) = parse_on n zap_flag ps tail next m' fs fewer goes in
    (
      fuel,
      enough,
      ap (λ x. parse (suc n) zap_flag x m) (group ∙ regroup p.0 p.1 rest)
          ∙ parse_round n zap_flag p.0 p.1 rest m f
          ∙ ap (λ rc. unless_failed rc m1 (parse n zap_flag rest next)) good
          ∙ eq,
    )

-- A property of which only the name is there.
parse_no_length :
    (n : ℕ) (zap_flag : Bool) (name : List ℕ) (m : Mechanism)
    → 0 < length name
    → parse (suc n) zap_flag (length name ∷ name) m ≡ (ok, m)
unfolding parse
parse_no_length n zap_flag name m h =
    let some_left : (length name == 0) ≡ false = grind arith in
    let enough : ltb (length name) (length name) ≡ false =
      ge→ltb (length name) (length name) (omega arith) in
    rw (some_left, enough, drop-length name) refl

-- A property of which the name and the length of the value are there.
parse_no_value :
    (n : ℕ) (zap_flag : Bool) (name : List ℕ) (v : ℕ) (m : Mechanism)
    → 0 < v
    → v < 2 ^ 32
    → parse (suc n) zap_flag (length name ∷ (name ++ put_uint32 v)) m ≡ (ok, m)
unfolding parse put_uint32
parse_no_value n zap_flag name v m above small =
    let l = length-append name (put_uint32 v) in
    let l4 = length-put_uint32 v in
    let some_left : (length (name ++ put_uint32 v) == 0) ≡ false = grind arith in
    let enough : ltb (length (name ++ put_uint32 v)) (length name) ≡ false =
      ge→ltb (length (name ++ put_uint32 v)) (length name) (omega (arith, l)) in
    let value = get_uint32-put_uint32 v [] small in
    let missing : ltb 0 v ≡ true = lt→ltb 0 v above in
    rw (some_left, enough, drop-append_exact name (put_uint32 v), value, missing) refl

-- Metadata of properties that `add_property` takes and that are accepted, and behind them the name of another
-- property, which is not empty, or its name and the length of its value, which is not empty either:
-- `parse_metadata` accepts them, and drops the last property.
pub parse_metadata_cut_off :
    (zap_flag : Bool) (ps : Dict) (name : List ℕ) (v : ℕ) (m m' : Mechanism)
    → All Fits ps
    → accept_all zap_flag ps m ≡ (ok, m')
    → 0 < length name
    → 0 < v
    → v < 2 ^ 32
    → (parse_metadata zap_flag (add_all ps ++ length name ∷ name) m ≡ (ok, m'))
      × (parse_metadata zap_flag (add_all ps ++ length name ∷ (name ++ put_uint32 v)) m ≡ (ok, m'))
unfolding parse_metadata
parse_metadata_cut_off zap_flag ps name v m m' f e named above small = (
  comes_to (length name) name (λ n. parse_no_length n zap_flag name m' named),
  comes_to (length name) (name ++ put_uint32 v)
      (λ n. parse_no_value n zap_flag name v m' above small),
)
  where
    with_fuel :
        (k : ℕ) (b : ℕ) (tail : List ℕ)
        → length (b ∷ tail) ≤ k
        → ((n : ℕ) → parse (suc n) zap_flag (b ∷ tail) m' ≡ (ok, m'))
        → parse k zap_flag (b ∷ tail) m' ≡ (ok, m')
    with_fuel zero b tail l ends = absurd (omega arith)
    with_fuel (suc n) b tail l ends = ends n

    comes_to :
        (b : ℕ) (tail : List ℕ)
        → ((n : ℕ) → parse (suc n) zap_flag (b ∷ tail) m' ≡ (ok, m'))
        → parse_metadata zap_flag (add_all ps ++ b ∷ tail) m ≡ (ok, m')
    comes_to b tail ends =
        let bytes = add_all ps ++ b ∷ tail in
        let (k, enough, eq) =
          parse_on (length bytes) zap_flag ps (b ∷ tail) m m' f (omega arith) e in
        eq ∙ with_fuel k b tail enough ends
