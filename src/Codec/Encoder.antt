-- ===== src/Codec/Encoder.antt =====
-- src/encoder.hpp: `encoder_base_t`, the state machine that fills the outgoing buffer. `pending` holds
-- the `to_write` bytes at `write_pos`. The caller hands over no buffer of its own, as the engine does.
pub mod Batches
mod Tests
use zeromq.Prelude.{
  ℕ, zero, suc, ◌-◌, Bool, Option, none, some, List, [], ◌++◌, length, take, drop, ltb, leb, ◌==◌,
  ◌&&◌, min, if◌then◌else◌,
}
use zeromq.Msg.{Msg}

pub record Encoder (Step : Type 0) : Type 0 where
  pub pending : List ℕ
  pub next : Step
  pub new_msg_flag : Bool
  pub in_progress : Option Msg

module _ {Step : Type 0} where
  -- `next_step (write_pos, to_write, next, new_msg_flag)`
  abbrev pub next_step : Encoder Step → List ℕ → Step → Bool → Encoder Step
  next_step e bytes step new_msg = record e { pending = bytes; next = step; new_msg_flag = new_msg }

  module _ (act : Msg → Encoder Step → Encoder Step) where
    -- `load_msg`; `none` is the failed assertion.
    unfoldable pub load_msg : Msg → Encoder Step → Option (Encoder Step)
    load_msg m e = elim e.in_progress [
      | none ↦ some (act m (record e { in_progress = some m }))
      | some other ↦ none
    ]

    -- One round of the loop: go on with what is in the buffer, or return it.
    pub data Round : Type 0 where
      more : List ℕ → Encoder Step → Round
      full : List ℕ → Encoder Step → Round

    -- The end of a round, from the zero-copy case on.
    unfoldable pub copy : ℕ → List ℕ → Encoder Step → Round
    copy size out e =
        if length out == 0 && leb size (length e.pending)
        then full e.pending (record e { pending = [] })
        else (let to_copy = min (length e.pending) (size - length out) in
            more (out ++ take to_copy e.pending) (record e { pending = drop to_copy e.pending }))

    -- A round for the message `m`.
    unfoldable pub round : ℕ → Msg → List ℕ → Encoder Step → Round
    round size m out e =
        if length e.pending == 0
        then (if e.new_msg_flag
            then full out (record e { in_progress = none })
            else copy size out (act m e))
        else copy size out e

    -- `while (pos < buffersize)`, in at most so many rounds.
    unfoldable pub rounds : ℕ → ℕ → Msg → List ℕ → Encoder Step → Option (List ℕ × Encoder Step)
    rounds zero size m out e = none
    rounds (suc fuel) size m out e =
        if ltb (length out) size
        then elim (round size m out e) [
          | full out' e' ↦ some (out', e')
          | more out' e' ↦ rounds fuel size m out' e'
        ]
        else some (out, e)

    -- `encode`, with the encoder's own buffer.
    unfoldable pub encode : ℕ → Encoder Step → Option (List ℕ × Encoder Step)
    encode size e = elim e.in_progress [ none ↦ some ([], e) | some m ↦ rounds 4 size m [] e ]
