-- ===== src/Codec.antt =====
-- What the program uses of encoding/json: `Marshal`, and `Unmarshal` into a struct that is new. The
-- struct is what `Unmarshal` leaves behind, also where it returns an error.
pub mod Prefixed
use cs425_mps.Base.{ℕ, ◌≡◌, Option, none, List}
use cs425_mps.Base.Result.{Error, Result, ok}

abbrev pub Bytes : Type 0
Bytes = List ℕ

pub record Codec (A : Type 0) : Type 0 where
  pub marshal : A → Result Bytes
  pub unmarshal : Bytes → A × Option Error

-- The documented behaviour for the structs of the program: strings, byte slices and integers are
-- marshalled without error, and read back.
pub record IsLossless {A : Type 0} (c : Codec A) : Type 0 where
  pub marshals : (a : A) → (b : Bytes) × (c.marshal a ≡ ok b)
  pub reads_back : (a : A) (b : Bytes) → c.marshal a ≡ ok b → c.unmarshal b ≡ (a, none)
