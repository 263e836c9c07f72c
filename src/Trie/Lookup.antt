-- ===== src/Trie/Lookup.antt =====
-- Lists of pointers: what is read after each operation on them, how long they are, and how many of
-- them are not NULL.
use zeromq.Prelude.{
  ℕ, zero, suc, ◌+◌, ◌-◌, ◌≤◌, ◌<◌, ◌≡◌, refl, Option, none, some, arith, ltb, ◌==◌, if◌then◌else◌,
}
use zeromq.Trie.{Trie, Slots, end, gap, sub, get, put, pad_left, pad_right, take, drop}

unfoldable pub width : Slots → ℕ
width end = 0
width (gap s) = suc (width s)
width (sub t s) = suc (width s)

abbrev pub one : Option Trie → ℕ
one none = 0
one (some t) = 1

unfoldable pub subs : Slots → ℕ
subs end = 0
subs (gap s) = subs s
subs (sub t s) = suc (subs s)

pub get_beyond : (s : Slots) (i : ℕ) → width s ≤ i → get s i ≡ none
unfolding get width
get_beyond end i h = refl
get_beyond (gap s) zero h = refl
get_beyond (gap s) (suc i) h = get_beyond s i (omega arith)
get_beyond (sub t s) zero h = absurd (omega arith)
get_beyond (sub t s) (suc i) h = get_beyond s i (omega arith)

pub get-put :
    (s : Slots) (i j : ℕ) (o : Option Trie)
    → i < width s
    → get (put s i o) j ≡ (if i == j then o else get s j)
unfolding get put width
get-put end i j o h = absurd (omega arith)
get-put (gap s) zero zero none h = refl
get-put (gap s) zero zero (some t) h = refl
get-put (gap s) zero (suc j) none h = ground arith
get-put (gap s) zero (suc j) (some t) h = ground arith
get-put (gap s) (suc i) zero o h = ground arith
get-put (gap s) (suc i) (suc j) o h = ground (arith, get-put s i j o)
get-put (sub t s) zero zero none h = refl
get-put (sub t s) zero zero (some u) h = refl
get-put (sub t s) zero (suc j) none h = ground arith
get-put (sub t s) zero (suc j) (some u) h = ground arith
get-put (sub t s) (suc i) zero o h = ground arith
get-put (sub t s) (suc i) (suc j) o h = ground (arith, get-put s i j o)

pub width-put : (s : Slots) (i : ℕ) (o : Option Trie) → width (put s i o) ≡ width s
unfolding put width
width-put end i o = refl
width-put (gap s) zero none = refl
width-put (gap s) zero (some t) = refl
width-put (gap s) (suc i) o = omega (arith, width-put s i o)
width-put (sub t s) zero none = refl
width-put (sub t s) zero (some u) = refl
width-put (sub t s) (suc i) o = omega (arith, width-put s i o)

pub subs-put :
    (s : Slots) (i : ℕ) (o : Option Trie)
    → i < width s
    → subs (put s i o) + one (get s i) ≡ subs s + one o
unfolding get put width subs
subs-put end i o h = absurd (omega arith)
subs-put (gap s) zero none h = omega arith
subs-put (gap s) zero (some t) h = omega arith
subs-put (gap s) (suc i) o h = omega (arith, subs-put s i o (omega arith))
subs-put (sub t s) zero none h = omega arith
subs-put (sub t s) zero (some u) h = omega arith
subs-put (sub t s) (suc i) o h = omega (arith, subs-put s i o (omega arith))

pub get-pad_left :
    (n : ℕ) (s : Slots) (i : ℕ) → get (pad_left n s) i ≡ (if ltb i n then none else get s (i - n))
unfolding get pad_left
get-pad_left zero s i = ground arith
get-pad_left (suc n) s zero = ground arith
get-pad_left (suc n) s (suc i) = ground (arith, get-pad_left n s i)

pub width-pad_left : (n : ℕ) (s : Slots) → width (pad_left n s) ≡ n + width s
unfolding width pad_left
width-pad_left zero s = omega arith
width-pad_left (suc n) s = omega (arith, width-pad_left n s)

pub subs-pad_left : (n : ℕ) (s : Slots) → subs (pad_left n s) ≡ subs s
unfolding subs pad_left
subs-pad_left zero s = refl
subs-pad_left (suc n) s = subs-pad_left n s

pub get-pad_right : (s : Slots) (n i : ℕ) → get (pad_right s n) i ≡ get s i
unfolding get pad_right
get-pad_right end zero i = refl
get-pad_right end (suc n) zero = refl
get-pad_right end (suc n) (suc i) = get-pad_right end n i
get-pad_right (gap s) n zero = refl
get-pad_right (gap s) n (suc i) = get-pad_right s n i
get-pad_right (sub t s) n zero = refl
get-pad_right (sub t s) n (suc i) = get-pad_right s n i

pub width-pad_right : (s : Slots) (n : ℕ) → width (pad_right s n) ≡ width s + n
unfolding width pad_right
width-pad_right end n = omega (arith, width-pad_left n end)
width-pad_right (gap s) n = omega (arith, width-pad_right s n)
width-pad_right (sub t s) n = omega (arith, width-pad_right s n)

pub subs-pad_right : (s : Slots) (n : ℕ) → subs (pad_right s n) ≡ subs s
unfolding subs pad_right
subs-pad_right end n = subs-pad_left n end
subs-pad_right (gap s) n = subs-pad_right s n
subs-pad_right (sub t s) n = omega (arith, subs-pad_right s n)

pub get-take : (n : ℕ) (s : Slots) (i : ℕ) → get (take n s) i ≡ (if ltb i n then get s i else none)
unfolding get take
get-take zero s i = ground arith
get-take (suc n) end i = ground arith
get-take (suc n) (gap s) zero = ground arith
get-take (suc n) (gap s) (suc i) = ground (arith, get-take n s i)
get-take (suc n) (sub t s) zero = ground arith
get-take (suc n) (sub t s) (suc i) = ground (arith, get-take n s i)

pub width-take : (n : ℕ) (s : Slots) → n ≤ width s → width (take n s) ≡ n
unfolding width take
width-take zero s h = refl
width-take (suc n) end h = absurd (omega arith)
width-take (suc n) (gap s) h = omega (arith, width-take n s (omega arith))
width-take (suc n) (sub t s) h = omega (arith, width-take n s (omega arith))

pub get-drop : (n : ℕ) (s : Slots) (i : ℕ) → get (drop n s) i ≡ get s (n + i)
unfolding get drop
get-drop zero s i = ground arith
get-drop (suc n) end i = ground arith
get-drop (suc n) (gap s) i = ground (arith, get-drop n s i)
get-drop (suc n) (sub t s) i = ground (arith, get-drop n s i)

pub width-drop : (n : ℕ) (s : Slots) → n ≤ width s → width (drop n s) ≡ width s - n
unfolding width drop
width-drop zero s h = omega arith
width-drop (suc n) end h = absurd (omega arith)
width-drop (suc n) (gap s) h = omega (arith, width-drop n s (omega arith))
width-drop (suc n) (sub t s) h = omega (arith, width-drop n s (omega arith))

-- Cutting NULL pointers off an end keeps the others.
pub subs_of_empty : (s : Slots) → ((i : ℕ) → get s i ≡ none) → subs s ≡ 0
unfolding get subs
subs_of_empty end h = refl
subs_of_empty (gap s) h = subs_of_empty s (λ i. h (suc i))
subs_of_empty (sub t s) h = cc (h 0)

pub subs-take : (n : ℕ) (s : Slots) → ((i : ℕ) → n ≤ i → get s i ≡ none) → subs (take n s) ≡ subs s
unfolding get subs take
subs-take zero s h = omega (arith, subs_of_empty s (λ i. h i (omega arith)))
subs-take (suc n) end h = refl
subs-take (suc n) (gap s) h = subs-take n s (λ i p. h (suc i) (omega arith))
subs-take (suc n) (sub t s) h = omega (arith, subs-take n s (λ i p. h (suc i) (omega arith)))

pub subs-drop : (n : ℕ) (s : Slots) → ((i : ℕ) → i < n → get s i ≡ none) → subs (drop n s) ≡ subs s
unfolding get subs drop
subs-drop zero s h = refl
subs-drop (suc n) end h = refl
subs-drop (suc n) (gap s) h = subs-drop n s (λ i p. h (suc i) (omega arith))
subs-drop (suc n) (sub t s) h = cc (h 0 (omega arith))

pub subs-le-width : (s : Slots) → subs s ≤ width s
unfolding subs width
subs-le-width end = omega arith
subs-le-width (gap s) = omega (arith, subs-le-width s)
subs-le-width (sub t s) = omega (arith, subs-le-width s)

pub subs_single : (s : Slots) → width s ≡ 1 → subs s ≡ one (get s 0)
unfolding subs width get
subs_single end h = absurd (omega arith)
subs_single (gap s) h = omega (arith, subs-le-width s)
subs_single (sub t s) h = omega (arith, subs-le-width s)

pub get-blank : (n i : ℕ) → get (pad_left n end) i ≡ none
unfolding get pad_left
get-blank zero i = refl
get-blank (suc n) zero = refl
get-blank (suc n) (suc i) = get-blank n i

pub subs-blank : (n : ℕ) → subs (pad_left n end) ≡ 0
unfolding subs pad_left
subs-blank zero = refl
subs-blank (suc n) = subs-blank n
