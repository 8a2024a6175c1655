-- ===== src/Message/Decode/Env.antt =====
-- What the decoder is given besides the stream and the memory: the tables of field descriptors, and the
-- functions of the application behind callback fields and extension types.
use ios_college_work.Common.{ℕ, List, Cmd}
use ios_college_work.Message.Field.{Field}
use ios_college_work.Message.Decode.Machine.{Machine}

-- Tables and functions by their address. A callback may read from its stream and store to the memory.
pub record DecodeEnv : Type 0 where
  pub table : ℕ → List Field
  pub decode_callback : (func : ℕ) → Field → (arg : ℕ) → Cmd Machine (Unit {0})
  pub decode_extension : (func extension tag wire_type : ℕ) → Cmd Machine (Unit {0})

-- A function that decodes a submessage: its table, and the address of the structure.
abbrev pub Nested : Type 0
Nested = List Field → ℕ → Cmd Machine (Unit {0})
