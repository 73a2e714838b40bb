-- ===== src/Struct.antt =====
-- `struct.pack` at the record format of src/python_server/server.py and scripts/make_shards.py, and
-- the packed C++ struct `Record` of src/client/main.cpp that reads the same 20 bytes.
pub mod Bytes
pub mod Layout
pub mod RoundTrip
pub mod Total
use mini2_anu_asim.Prelude.{
  ℕ, zero, suc, ◌+◌, ◌*◌, ◌^◌, List, [], ◌∷◌, ◌++◌, ltb, leb, if◌then◌else◌, Result, ok, err,
  or_raise, struct_error, overflow_error, ◌>>=◌,
}
use mini2_anu_asim.Prelude.Int.{ℤ, pos, negsuc}
use mini2_anu_asim.Prelude.Floats.{Floats}
use Bytes.{le_bytes, word32}

-- The format characters that occur: `i`, `f`, `I`, `H`, `B`.
pub data Code : Type 0 where
  int32 float32 uint32 uint16 uint8 : Code

-- "<iffIHBB": little endian, standard sizes, no padding.
abbrev pub record_fmt : List Code
record_fmt = int32 ∷ float32 ∷ float32 ∷ uint32 ∷ uint16 ∷ uint8 ∷ uint8 ∷ []

abbrev pub width : Code → ℕ
width int32 = 4
width float32 = 4
width uint32 = 4
width uint16 = 2
width uint8 = 1

unfoldable pub calcsize : List Code → ℕ
calcsize [] = 0
calcsize (c ∷ cs) = width c + calcsize cs

abbrev pub record_size : ℕ
record_size = 20

module _ (fl : Floats) where
  -- An argument of `struct.pack`.
  pub data Value : Type 0 where
    int : ℤ → Value
    float : fl.F → Value

-- An unsigned field of `k` bytes.
unfoldable pub pack_unsigned : ℕ → ℤ → Result (List ℕ)
pack_unsigned k (pos n) = if ltb n (2 ^ (8 * k)) then ok (le_bytes k n) else err struct_error
pack_unsigned k (negsuc n) = err struct_error

unfoldable pub pack_signed32 : ℤ → Result (List ℕ)
pack_signed32 (pos n) = if ltb n (2 ^ 31) then ok (le_bytes 4 n) else err struct_error
pack_signed32 (negsuc n) =
    if ltb n (2 ^ 31) then ok (le_bytes 4 (word32 (negsuc n))) else err struct_error

module _ (fl : Floats) where
  -- One argument under one format character.
  unfoldable pub pack_one : Code → Value fl → Result (List ℕ)
  pack_one int32 (int z) = pack_signed32 z
  pack_one uint32 (int z) = pack_unsigned 4 z
  pack_one uint16 (int z) = pack_unsigned 2 z
  pack_one uint8 (int z) = pack_unsigned 1 z
  pack_one float32 (float x) = do w ← or_raise overflow_error (fl.to_f32 x); ok (le_bytes 4 w)
  pack_one _ _ = err struct_error

  unfoldable pub pack_args : List Code → List (Value fl) → Result (List ℕ)
  pack_args [] [] = ok []
  pack_args [] (v ∷ vs) = err struct_error
  pack_args (c ∷ cs) [] = err struct_error
  pack_args (c ∷ cs) (v ∷ vs) = do part ← pack_one c v; rest ← pack_args cs vs; ok (part ++ rest)

  -- `struct.pack(RECORD_FMT, …)`.
  unfoldable pub pack_record : List (Value fl) → Result (List ℕ)
  pack_record vs = pack_args record_fmt vs

-- The seven arguments that both callers pass.
pub record Fields (fl : Floats) : Type 0 where
  pub key : ℤ
  pub latitude : fl.F
  pub longitude : fl.F
  pub incident_zip : ℕ
  pub year : ℕ
  pub status : ℕ
  pub borough : ℕ

unfoldable pub pack_fields : (fl : Floats) → Fields fl → Result (List ℕ)
pack_fields fl a = pack_record fl (
    int a.key
    ∷ float a.latitude
    ∷ float a.longitude
    ∷ int (pos a.incident_zip)
    ∷ int (pos a.year)
    ∷ int (pos a.status)
    ∷ int (pos a.borough)
    ∷ [])
