-- ===== src/Message/Encode/Env.antt =====
-- What the encoder is given besides the message: the tables of field descriptors, and the functions
-- of the application behind callback fields and extension types.
use ios_college_work.Common.{ℕ, List, Cmd}
use ios_college_work.Stream.Output.{OStream}
use ios_college_work.Message.Memory.{Mem}
use ios_college_work.Message.Field.{Field}

-- Tables and functions by their address. Callbacks write to the stream, and not to the message.
pub record Env : Type 0 where
  pub table : ℕ → List Field
  pub encode_callback : (func : ℕ) → Field → (arg : ℕ) → Mem → Cmd OStream (Unit {0})
  pub encode_extension : (func extension : ℕ) → Mem → Cmd OStream (Unit {0})

-- A function that encodes a submessage: its table, and the address of the structure.
abbrev pub Submessage : Type 0
Submessage = List Field → ℕ → Cmd OStream (Unit {0})
