-- ===== src/Core/Message.antt =====
-- src/core/color_message.h: the two messages that a transport moves.
use color.Prelude.{ℕ, Bool, false, Option, none, List, []}
use color.Text.{Bytes}

abbrev pub Seq : Type 0
Seq = ℕ

abbrev pub Hash : Type 0
Hash = ℕ

pub record Request : Type 0 where
  pub seq : Seq
  pub ack_base : Seq
  pub ack_new : List Seq
  pub hash : Option Hash
  pub payload : Bytes

pub record Response : Type 0 where
  pub seq : Seq
  pub hash : Option Hash
  pub payload : Bytes
  pub no_op : Bool
  pub recover : Bool
  pub recover_from : ℕ

-- The member initialisers.
abbrev pub default_request : Request
default_request = record { seq = 0; ack_base = 1; ack_new = []; hash = none; payload = [] }

abbrev pub default_response : Response
default_response = record {
  seq = 0;
  hash = none;
  payload = [];
  no_op = false;
  recover = false;
  recover_from = 0;
}
