-- ===== src/Protocol/Primitives.antt =====
-- internal/protocol/primitives.go, and the reader and writer of codec.go that it uses. A reader is
-- the bytes from its position on; a write is the bytes that it appends.
pub mod RoundTrip
use rom_server_poc.Prelude.{
  ℕ, zero, suc, ◌+◌, ◌-◌, ◌*◌, ◌/◌, ◌%◌, ◌^◌, ◌<◌, String, Bool, true, false, not, Option, none,
  some, List, [], ◌∷◌, ◌++◌, ◌==◌, str_eq, if◌then◌else◌, ltb, leb, length, take, drop,
}
use mathlib.Core.List.{flat_map}
use rom_server_poc.Prelude.Bytes.{le_bytes, from_le}
use rom_server_poc.Prelude.Result.{Result, ok, err, ◌>>=◌}
use rom_server_poc.Protocol.Value.{
  NumKind, int, int8, int16, int32, int64, uint, uint8, uint16, uint32, uint64, Value, num, float32,
  float64, bool, text, items, values, plain,
}
use rom_server_poc.Protocol.Utf16.{utf16_encode, utf16_decode}

-- Go's conversions between floats, on IEEE bit patterns, and between floats and integers.
pub record Floats : Type 0 where
  -- float64(f) of a float32 and float32(f) of a float64
  pub widen : ℕ → ℕ
  pub narrow : ℕ → ℕ
  -- int64(f) and uint64(f) of a float64, as 64-bit patterns
  pub to_signed : ℕ → ℕ
  pub to_unsigned : ℕ → ℕ
  -- float64(n) of an int64 and of a uint64
  pub of_signed : ℕ → ℕ
  pub of_unsigned : ℕ → ℕ
  -- A float32 has 32 bits, the others 64.
  pub narrow_fits : (f : ℕ) → narrow f < 2 ^ 32
  pub widen_fits : (f : ℕ) → widen f < 2 ^ 64
  pub to_signed_fits : (f : ℕ) → to_signed f < 2 ^ 64
  pub to_unsigned_fits : (f : ℕ) → to_unsigned f < 2 ^ 64
  pub of_signed_fits : (n : ℕ) → of_signed n < 2 ^ 64
  pub of_unsigned_fits : (n : ℕ) → of_unsigned n < 2 ^ 64

pub data CodecError : Type 0 where
  expected_integer expected_unsigned expected_float expected_bool expected_string : CodecError
  expected_items expected_values : CodecError
  unknown_message : String → CodecError
  missing_field : String → CodecError
  unsized_array : String → CodecError
  wrong_count : ℕ → ℕ → CodecError
  cannot_encode : String → CodecError
  cannot_zero : String → CodecError
  body_too_short : ℕ → CodecError
  -- No Go error: the bound on the nesting of types was reached.
  out_of_fuel : CodecError

-- The keys of `primitiveDecoders` and `primitiveEncoders`.
pub data PrimType : Type 0 where
  int32_prim uint32_prim int64_prim uint64_prim int16_prim uint16_prim byte_prim sbyte_prim :
      PrimType
  boolean_prim single_prim double_prim string_prim char_array_prim : PrimType

unfoldable pub prim_of : String → Option PrimType
prim_of t =
    if str_eq t "System.Int32"
    then some int32_prim
    else if str_eq t "System.UInt32"
    then some uint32_prim
    else if str_eq t "System.Int64"
    then some int64_prim
    else if str_eq t "System.UInt64"
    then some uint64_prim
    else if str_eq t "System.Int16"
    then some int16_prim
    else if str_eq t "System.UInt16"
    then some uint16_prim
    else if str_eq t "System.Byte"
    then some byte_prim
    else if str_eq t "System.SByte"
    then some sbyte_prim
    else if str_eq t "System.Boolean"
    then some boolean_prim
    else if str_eq t "System.Single"
    then some single_prim
    else if str_eq t "System.Double"
    then some double_prim
    else if str_eq t "System.String"
    then some string_prim
    else if str_eq t "System.Char[]"
    then some char_array_prim
    else none

-- The conversion of a `w`-bit pattern, read as signed, to int64.
abbrev pub sign_extend : ℕ → ℕ → ℕ
sign_extend w v = if ltb v (2 ^ (w - 1)) then v else v + (2 ^ 64 - 2 ^ w)

module _ (fl : Floats) where
  unfoldable pub to_int64 : Value → Result CodecError ℕ
  to_int64 (num kind n) = ok n
  to_int64 (float64 f) = ok (fl.to_signed f)
  to_int64 (float32 f) = ok (fl.to_signed (fl.widen f))
  to_int64 _ = err expected_integer

  unfoldable pub to_uint64 : Value → Result CodecError ℕ
  to_uint64 (num kind n) = ok n
  to_uint64 (float64 f) = ok (fl.to_unsigned f)
  to_uint64 (float32 f) = ok (fl.to_unsigned (fl.widen f))
  to_uint64 _ = err expected_unsigned

  -- int8, int16, uint, uint8 and uint16 have no case.
  unfoldable pub to_float64 : Value → Result CodecError ℕ
  to_float64 (float64 f) = ok f
  to_float64 (float32 f) = ok (fl.widen f)
  to_float64 (num int n) = ok (fl.of_signed n)
  to_float64 (num int32 n) = ok (fl.of_signed n)
  to_float64 (num int64 n) = ok (fl.of_signed n)
  to_float64 (num uint32 n) = ok (fl.of_unsigned n)
  to_float64 (num uint64 n) = ok (fl.of_unsigned n)
  to_float64 _ = err expected_float

-- `u8`, `u16`, `u32` and `u64` of the reader: `none` is errStop.
unfoldable pub read_uint : ℕ → List ℕ → Option (ℕ × List ℕ)
read_uint n buf = if leb n (length buf) then some (from_le (take n buf), drop n buf) else none

-- The `units[i]` loop of `str`, over the bytes that `need` has made sure of.
unfoldable pub read_units : ℕ → List ℕ → List ℕ
read_units zero buf = []
read_units (suc n) buf = from_le (take 2 buf) ∷ read_units n (drop 2 buf)

abbrev pub str_units : Option (ℕ × List ℕ) → Option (List ℕ × List ℕ)
str_units none = none
str_units (some (n, rest)) =
    if leb (n * 2) (length rest)
    then some (utf16_decode (read_units n rest), drop (n * 2) rest)
    else none

unfoldable pub read_str : List ℕ → Option (List ℕ × List ℕ)
unfolding read_uint read_units
read_str buf = str_units (read_uint 4 buf)

abbrev pub more_units : ℕ → Option (List ℕ × List ℕ) → Option (List ℕ × List ℕ)
more_units u none = none
more_units u (some (us, rest)) = some (u ∷ us, rest)

-- The units up to the terminating zero, and the bytes behind it.
unfoldable pub read_until_zero : List ℕ → Option (List ℕ × List ℕ)
read_until_zero (lo ∷ hi ∷ buf) =
    let ch : ℕ = from_le (lo ∷ hi ∷ []) in
    let rest = read_until_zero buf in if ch == 0 then some ([], buf) else more_units ch rest
read_until_zero _ = none

abbrev pub decoded : Option (List ℕ × List ℕ) → Option (List ℕ × List ℕ)
decoded none = none
decoded (some (us, rest)) = some (utf16_decode us, rest)

unfoldable pub read_char_array : List ℕ → Option (List ℕ × List ℕ)
unfolding read_until_zero
read_char_array buf = decoded (read_until_zero buf)

unfoldable pub write_units : List ℕ → List ℕ
write_units [] = []
write_units (u ∷ us) = le_bytes 2 u ++ write_units us

unfoldable pub write_str : List ℕ → List ℕ
unfolding write_units
write_str s = let units = utf16_encode s in le_bytes 4 (length units) ++ write_units units

unfoldable pub write_char_array : List ℕ → List ℕ
unfolding write_units
write_char_array s = write_units (utf16_encode s) ++ le_bytes 2 0

unfoldable pub encode_bool : Value → Result CodecError (List ℕ)
encode_bool (bool b) = ok (le_bytes 1 (if b then 1 else 0))
encode_bool _ = err expected_bool

unfoldable pub encode_text : (List ℕ → List ℕ) → Value → Result CodecError (List ℕ)
encode_text write (text s) = ok (write s)
encode_text write _ = err expected_string

abbrev pub as_value {ℓ} : {A : Type ℓ} → (A → Value) → Option (A × List ℕ) → Option (Value × List ℕ)
as_value f none = none
as_value f (some (a, rest)) = some (f a, rest)

module _ (fl : Floats) where
  -- primitiveDecoders
  unfoldable pub decode_prim : PrimType → List ℕ → Option (Value × List ℕ)
  unfolding read_uint read_str read_char_array
  decode_prim int32_prim buf = as_value (λ v. num int64 (sign_extend 32 v)) (read_uint 4 buf)
  decode_prim uint32_prim buf = as_value (λ v. num uint64 v) (read_uint 4 buf)
  decode_prim int64_prim buf = as_value (λ v. num int64 v) (read_uint 8 buf)
  decode_prim uint64_prim buf = as_value (λ v. num uint64 v) (read_uint 8 buf)
  decode_prim int16_prim buf = as_value (λ v. num int64 (sign_extend 16 v)) (read_uint 2 buf)
  decode_prim uint16_prim buf = as_value (λ v. num uint64 v) (read_uint 2 buf)
  decode_prim byte_prim buf = as_value (λ v. num uint64 v) (read_uint 1 buf)
  decode_prim sbyte_prim buf = as_value (λ v. num int64 (sign_extend 8 v)) (read_uint 1 buf)
  decode_prim boolean_prim buf = as_value (λ v. bool (not (v == 0))) (read_uint 1 buf)
  decode_prim single_prim buf = as_value (λ v. float64 (fl.widen v)) (read_uint 4 buf)
  decode_prim double_prim buf = as_value float64 (read_uint 8 buf)
  decode_prim string_prim buf = as_value text (read_str buf)
  decode_prim char_array_prim buf = as_value text (read_char_array buf)

  -- primitiveEncoders. `uint32(int32(n))` keeps the low 32 bits, which is what is written.
  unfoldable pub encode_prim : PrimType → Value → Result CodecError (List ℕ)
  unfolding to_int64 to_uint64 to_float64 encode_bool encode_text write_str write_char_array
  encode_prim int32_prim v = do n ← to_int64 fl v; ok (le_bytes 4 (n % 2 ^ 32))
  encode_prim uint32_prim v = do n ← to_uint64 fl v; ok (le_bytes 4 (n % 2 ^ 32))
  encode_prim int64_prim v = do n ← to_int64 fl v; ok (le_bytes 8 n)
  encode_prim uint64_prim v = do n ← to_uint64 fl v; ok (le_bytes 8 n)
  encode_prim int16_prim v = do n ← to_int64 fl v; ok (le_bytes 2 (n % 2 ^ 16))
  encode_prim uint16_prim v = do n ← to_uint64 fl v; ok (le_bytes 2 (n % 2 ^ 16))
  encode_prim byte_prim v = do n ← to_uint64 fl v; ok (le_bytes 1 (n % 2 ^ 8))
  encode_prim sbyte_prim v = do n ← to_int64 fl v; ok (le_bytes 1 (n % 2 ^ 8))
  encode_prim boolean_prim v = encode_bool v
  encode_prim single_prim v = do f ← to_float64 fl v; ok (le_bytes 4 (fl.narrow f))
  encode_prim double_prim v = do f ← to_float64 fl v; ok (le_bytes 8 f)
  encode_prim string_prim v = encode_text write_str v
  encode_prim char_array_prim v = encode_text write_char_array v
