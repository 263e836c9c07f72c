-- ===== src/MsgStore/Tests.antt =====
-- The theorems on messages at two variables: a large message, and a copy of it.
use zeromq.Prelude.{ℕ, ◌≡◌, ◌↔◌, refl, true, false, none, some, List, [], ◌∷◌, replicate, arith}
use zeromq.MsgStore.{
  no_message, data_of, Store, lmsg, load, init, init_size, close, release, move, copy, share,
}
use zeromq.MsgStore.Count.{count}
use zeromq.MsgStore.Transfer.{Returns}
use zeromq.MsgStore.Calls.{
  Reach, here, next, init_step, init_size_step, copy_step, new_messages, Reach-new_messages_copied,
  Reach-new_messages_returns, Reach-new_messages_freed,
}

abbrev large : List ℕ
large = replicate 40 7

abbrev first : Store
first = record {
  messages = record { type = lmsg 0; shared = false } ∷ no_message ∷ [];
  contents = some (record { bytes = large; ffn = false; refcnt = 0 }) ∷ [];
}

abbrev second : Store
second = init 1 first

abbrev both : Store
both = record {
  messages = record { type = lmsg 0; shared = true } ∷ record { type = lmsg 0; shared = true } ∷ [];
  contents = some (record { bytes = large; ffn = false; refcnt = 2 }) ∷ [];
}

run : Reach (new_messages 2) both
unfolding init_size init copy close release share
run =
    next
      (next (next here (init_size_step true 0 large (new_messages 2) (omega arith) (λ p. refl)))
        (init_step 1 first (omega arith) (λ p. refl)))
      (copy_step 1 0 true second both (omega arith) (omega arith) refl)

Reach-new_messages_returns_example :
    Returns both (close 1 both) × Returns both (move 1 0 both) × Returns both (copy 1 0 both)
Reach-new_messages_returns_example =
    Reach-new_messages_returns 2 1 0 (omega arith) run (omega arith) (omega arith) (λ e. cc)
      (λ e. cc)

Reach-new_messages_freed_example : (load 0 both ≡ none) ↔ (count 0 both.messages ≡ 0)
Reach-new_messages_freed_example = Reach-new_messages_freed 2 0 (omega arith) run

Reach-new_messages_copied_example :
    (data_of 1 both ≡ data_of 0 both) × (data_of 0 both ≡ data_of 0 both)
unfolding close release copy share
Reach-new_messages_copied_example =
    Reach-new_messages_copied 2 1 0 (omega arith) run (omega arith) (omega arith)
      (λ e. omega (arith, e)) refl
