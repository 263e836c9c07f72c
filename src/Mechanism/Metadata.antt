-- ===== src/Mechanism/Metadata.antt =====
-- What `parse_metadata` reads of what `add_property` has written.
use zeromq.Prelude.{
  append_assoc, ℕ, zero, suc, ◌^◌, ◌<◌, ◌≤◌, ◌≡◌, refl, ap, ◌∙◌, Bool, false, List, [], ◌∷◌, ◌++◌,
  length, drop, All, ltb, ge→ltb, arith, ◌==◌, length-append, take-append_exact, drop-append_exact,
}
use zeromq.Wire.{put_uint32, get_uint32-put_uint32}
use zeromq.Mechanism.{
  Mechanism, Rc, ok, Dict, add_property, check_property, store_property, unless_failed, parse,
  parse_metadata,
}

-- A name and a value that `add_property` asserts nothing against.
pub record Fits (p : List ℕ × List ℕ) : Type 0 where
  pub name_fits : length p.0 ≤ 255
  pub value_fits : length p.1 < 2 ^ 31

abbrev pub add_all : Dict → List ℕ
add_all [] = []
add_all (p ∷ ps) = add_property p.0 p.1 ++ add_all ps

-- What the properties mean, one after the other, up to one that is refused.
unfoldable pub accept_all : Bool → Dict → Mechanism → Rc × Mechanism
accept_all zap_flag [] m = (ok, m)
accept_all zap_flag (p ∷ ps) m =
    let (rc, m') = check_property p.0 p.1 m in
    unless_failed rc m' (accept_all zap_flag ps (store_property zap_flag p.0 p.1 m'))

pub length-put_uint32 : (v : ℕ) → length (put_uint32 v) ≡ 4
unfolding put_uint32
length-put_uint32 v = refl

pub drop_four : (v : ℕ) (r : List ℕ) → drop 4 (put_uint32 v ++ r) ≡ r
unfolding put_uint32
drop_four v r = refl

-- One round of the loop, for at least two bytes.
abbrev pub after : ℕ → Bool → List ℕ → List ℕ → List ℕ → Mechanism → Rc × Mechanism
after n zap_flag name value rest m =
    let (rc, m') = check_property name value m in
    unless_failed rc m' (parse n zap_flag rest (store_property zap_flag name value m'))

pub parse_round :
    (n : ℕ) (zap_flag : Bool) (name value rest : List ℕ) (m : Mechanism)
    → Fits (name, value)
    → parse
        (suc n)
        zap_flag
        (length name ∷ (name ++ (put_uint32 (length value) ++ (value ++ rest))))
        m
      ≡ after n zap_flag name value rest m
unfolding parse
parse_round n zap_flag name value rest m f =
    let fv = f.value_fits in
    let tail = put_uint32 (length value) ++ (value ++ rest) in
    let l0 = length-append name tail in
    let l1 = length-append (put_uint32 (length value)) (value ++ rest) in
    let l2 = length-append value rest in
    let l3 = length-put_uint32 (length value) in
    let some_left : (length (name ++ tail) == 0) ≡ false = grind arith in
    let enough : ltb (length (name ++ tail)) (length name) ≡ false =
      ge→ltb (length (name ++ tail)) (length name) (omega (arith, l0)) in
    let four : ltb (length tail) 4 ≡ false = ge→ltb (length tail) 4 (omega (arith, l1, l3)) in
    let whole : ltb (length (value ++ rest)) (length value) ≡ false =
      ge→ltb (length (value ++ rest)) (length value) (omega (arith, l2)) in
    let v = get_uint32-put_uint32 (length value) (value ++ rest) (omega arith) in
    rw
      (
        some_left,
        enough,
        take-append_exact name tail,
        drop-append_exact name tail,
        four,
        v,
        drop_four (length value) (value ++ rest),
        whole,
        take-append_exact value rest,
        drop-append_exact value rest,
      )
      refl

pub length-add_property :
    (name value rest : List ℕ) → suc (length rest) ≤ length (add_property name value ++ rest)
unfolding add_property
length-add_property name value rest =
    let l = length-append (name ++ (put_uint32 (length value) ++ value)) rest in omega (arith, l)

pub regroup :
    (name value rest : List ℕ)
    → add_property name value ++ rest
      ≡ length name ∷ (name ++ (put_uint32 (length value) ++ (value ++ rest)))
unfolding add_property
regroup name value rest =
    ap (λ l. length name ∷ l)
      (append_assoc name (put_uint32 (length value) ++ value) rest
        ∙ ap (λ l. name ++ l) (append_assoc (put_uint32 (length value)) value rest))

parse_nothing : (n : ℕ) (zap_flag : Bool) (m : Mechanism) → parse n zap_flag [] m ≡ (ok, m)
unfolding parse
parse_nothing zero zap_flag m = refl
parse_nothing (suc n) zap_flag m = refl

parse-add_all :
    (n : ℕ) (zap_flag : Bool) (ps : Dict) (m : Mechanism)
    → All Fits ps
    → length (add_all ps) ≤ n
    → parse n zap_flag (add_all ps) m ≡ accept_all zap_flag ps m
unfolding accept_all
parse-add_all zero zap_flag [] m f l = parse_nothing 0 zap_flag m
parse-add_all (suc n) zap_flag [] m f l = parse_nothing (suc n) zap_flag m
parse-add_all zero zap_flag (p ∷ ps) m (f, fs) l =
    absurd (let k = length-add_property p.0 p.1 (add_all ps) in omega arith)
parse-add_all (suc n) zap_flag (p ∷ ps) m (f, fs) l =
    let k = length-add_property p.0 p.1 (add_all ps) in
    let (rc, m') = check_property p.0 p.1 m in
    let rest = parse-add_all n zap_flag ps (store_property zap_flag p.0 p.1 m') fs (omega arith) in
    ap (λ l. parse (suc n) zap_flag l m) (regroup p.0 p.1 (add_all ps))
    ∙ parse_round n zap_flag p.0 p.1 (add_all ps) m f
    ∙ ap (unless_failed rc m') rest

-- What `add_property` writes for properties one after the other, `parse_metadata` takes for these properties, in
-- this order: it checks and stores each, up to the first that is refused.
pub parse_metadata-add_all :
    (zap_flag : Bool) (ps : Dict) (m : Mechanism)
    → All Fits ps
    → parse_metadata zap_flag (add_all ps) m ≡ accept_all zap_flag ps m
unfolding parse_metadata
parse_metadata-add_all zap_flag ps m f =
    parse-add_all (length (add_all ps)) zap_flag ps m f (omega arith)
