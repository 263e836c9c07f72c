-- ===== src/Trie/Tests.antt =====
-- The theorems on src/trie.cpp at a tree with two subscriptions.
use zeromq.Prelude.{ℕ, some, ◌≡◌, List, ◌+◌, ◌^◌, ◌<◌, refl, [], ◌∷◌, arith, IsByte, All}
use zeromq.Trie.{apply, Trie, node, end, sub, get, is_redundant}
use zeromq.Trie.Lookup.{width, subs}
use zeromq.Trie.Refs.{refs, IsSound}
use zeromq.Trie.Add.{Adds, add-Adds}
use zeromq.Trie.Rm.{Removes, rm-Removes}
use zeromq.Trie.Check.{Checks, check-Checks}
use zeromq.Trie.Apply.{times, once, times-apply}

-- "a" once and "b" twice.
abbrev two_topics : Trie
two_topics = node 0 97 2 2 (sub (node 1 0 0 0 end) (sub (node 2 0 0 0 end) end))

two_topics-IsSound : IsSound two_topics
unfolding IsSound get subs width is_redundant
two_topics-IsSound = (
  record { sized = refl; narrow = omega arith; leftmost = λ h e. cc; rightmost = λ h e. cc },
  refl,
  (
    (
      record {
        sized = refl;
        narrow = omega arith;
        leftmost = λ h. absurd (omega arith);
        rightmost = λ h. absurd (omega arith);
      },
      refl,
      tt,
    ),
    refl,
    (
      (
        record {
          sized = refl;
          narrow = omega arith;
          leftmost = λ h. absurd (omega arith);
          rightmost = λ h. absurd (omega arith);
        },
        refl,
        tt,
      ),
      refl,
      tt,
    ),
  ),
)

room : refs two_topics (100 ∷ 1 ∷ []) + 1 < 2 ^ 32
unfolding refs get
room = omega arith

bytes : All IsByte (100 ∷ 1 ∷ [])
bytes = (omega arith, (omega arith, tt))

add-Adds_example : Adds (100 ∷ 1 ∷ []) two_topics
add-Adds_example = add-Adds (100 ∷ 1 ∷ []) two_topics bytes two_topics-IsSound room

rm-Removes_example : Removes (97 ∷ []) two_topics
rm-Removes_example = rm-Removes (97 ∷ []) two_topics two_topics-IsSound

check-Checks_example : Checks (98 ∷ 1 ∷ []) two_topics
check-Checks_example = check-Checks (98 ∷ 1 ∷ []) two_topics two_topics-IsSound

times-apply_example :
    (l : List (List ℕ)) × (apply two_topics ≡ some l)
    × ((p : List ℕ) → times p l ≡ once (refs two_topics p))
times-apply_example = times-apply two_topics two_topics-IsSound
