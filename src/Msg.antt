-- ===== src/Msg.antt =====
-- src/msg.hpp: what the protocol code reads of a message. The bits of `flags ()` that the modelled code
-- tests are fields, `delimiter` is the type `type_delimiter`, and `body` holds the bytes of `data ()`.
use zeromq.Prelude.{ℕ, Bool, false, List, []}

pub record Msg : Type 0 where
  pub more : Bool
  pub command : Bool
  pub credential : Bool
  pub identity : Bool
  pub delimiter : Bool
  pub body : List ℕ

-- `init ()`, an empty message with no flags.
abbrev pub empty : Msg
empty = record {
  more = false;
  command = false;
  credential = false;
  identity = false;
  delimiter = false;
  body = [];
}
