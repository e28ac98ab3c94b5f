-- ===== src/Protocol/Primitives/RoundTrip.antt =====
-- What the reader gets from a primitive that the writer accepted.
use rom_server_poc.Prelude.{
  ℕ, ◌*◌, ◌%◌, ◌^◌, ◌<◌, ◌≡◌, ◌≢◌, refl, ap, ◌∙◌, true, false, some, List, [], ◌∷◌, ◌++◌, arith,
  length, All, append_assoc, length-append, take-append, drop-append, ◌==◌, not,
}
use rom_server_poc.Prelude.Bytes.{le_bytes, from_le, from_le-le_bytes, length-le_bytes}
use rom_server_poc.Prelude.Result.{Result, ok, err, ◌>>=◌}
use rom_server_poc.Protocol.Value.{
  int, int32, int64, uint32, uint64, Value, num, float32, float64, bool, text, nil_value,
}
use rom_server_poc.Protocol.Utf16.{
  utf16_encode, utf16_decode, IsRune, utf16_decode-utf16_encode, IsUnit, utf16_encode-IsUnit,
}
use rom_server_poc.Protocol.Primitives.{
  Floats, CodecError, PrimType, int32_prim, uint32_prim, int64_prim, uint64_prim, int16_prim,
  uint16_prim, byte_prim, sbyte_prim, boolean_prim, single_prim, double_prim, string_prim,
  char_array_prim, sign_extend, to_int64, to_uint64, to_float64, read_uint, read_units, read_str,
  read_until_zero, read_char_array, write_units, write_str, write_char_array, decode_prim,
  encode_prim, encode_bool, encode_text, str_units, decoded, as_value,
}

pub read_uint-append :
    (front rest : List ℕ) → read_uint (length front) (front ++ rest) ≡ some (from_le front, rest)
unfolding read_uint
read_uint-append front rest =
    ground (arith, length-append front rest, take-append front rest, drop-append front rest)

pub read_uint-le_bytes :
    (n v : ℕ) (rest : List ℕ) → v < 256 ^ n → read_uint n (le_bytes n v ++ rest) ≡ some (v, rest)
read_uint-le_bytes n v rest h =
    rw (length-le_bytes n v, from_le-le_bytes n v h) at (read_uint-append (le_bytes n v) rest)

read_units-write_units :
    (us rest : List ℕ) → All IsUnit us → read_units (length us) (write_units us ++ rest) ≡ us
unfolding read_units write_units
read_units-write_units [] rest h = refl
read_units-write_units (u ∷ us) rest h = ground (arith, read_units-write_units us rest)

length-write_units : (us : List ℕ) → length (write_units us) ≡ length us * 2
unfolding write_units
length-write_units [] = refl
length-write_units (u ∷ us) = omega (arith, length-write_units us)

str_units-write_units :
    (us rest : List ℕ)
    → All IsUnit us
    → str_units (some (length us, write_units us ++ rest)) ≡ some (utf16_decode us, rest)
str_units-write_units us rest h = ground (
  arith,
  length-append (write_units us) rest,
  length-write_units us,
  read_units-write_units us rest,
  rw (length-write_units us) at (drop-append (write_units us) rest),
)

-- A text of runes whose units can be counted by 32 bits is read back.
read_str-write_str :
    (s rest : List ℕ)
    → All IsRune s
    → length (utf16_encode s) < 2 ^ 32
    → read_str (write_str s ++ rest) ≡ some (s, rest)
unfolding read_str write_str
read_str-write_str s rest h fits =
    let us = utf16_encode s in
    ap str_units (read_uint-le_bytes 4 (length us) (write_units us ++ rest) (omega arith))
    ∙ str_units-write_units us rest (utf16_encode-IsUnit s)
    ∙ ap (λ t. some (t, rest)) (utf16_decode-utf16_encode s h)

read_until_zero-write_units :
    (us rest : List ℕ)
    → All IsUnit us
    → All (λ u. u ≢ 0) us
    → read_until_zero (write_units us ++ (0 ∷ 0 ∷ rest)) ≡ some (us, rest)
unfolding read_until_zero write_units
read_until_zero-write_units [] rest h nz = refl
read_until_zero-write_units (u ∷ us) rest h nz = ground (arith, read_until_zero-write_units us rest)

-- No unit of a rune other than 0 is 0.
units-ne-zero : (s : List ℕ) → All (λ r. r ≢ 0) s → All (λ u. u ≢ 0) (utf16_encode s)
unfolding utf16_encode
units-ne-zero [] h = tt
units-ne-zero (r ∷ rs) h = ground (arith, units-ne-zero rs)

-- A text of runes other than 0 is read back from its zero-terminated form.
pub read_char_array-write_char_array :
    (s rest : List ℕ)
    → All IsRune s
    → All (λ r. r ≢ 0) s
    → read_char_array (write_char_array s ++ rest) ≡ some (s, rest)
unfolding read_char_array write_char_array
read_char_array-write_char_array s rest h nz = rw append_assoc (
    ap decoded (
      read_until_zero-write_units (utf16_encode s) rest (utf16_encode-IsUnit s)
        (units-ne-zero s nz))
    ∙ ap (λ t. some (t, rest)) (utf16_decode-utf16_encode s h))

-- The patterns of 64 bits that a Go value holds.
abbrev pub InRange : Value → Type 0
InRange (num kind n) = n < 2 ^ 64
InRange (float64 f) = f < 2 ^ 64
InRange _ = Unit

-- The texts that the two string types carry without loss.
abbrev pub TextOk : PrimType → Value → Type 0
TextOk string_prim (text s) = All IsRune s × (length (utf16_encode s) < 2 ^ 32)
TextOk char_array_prim (text s) = All IsRune s × All (λ r. r ≢ 0) s
TextOk _ _ = Unit

module _ (fl : Floats) where
  -- The value of a primitive type that arrives: its integer or float conversion, cut to the width.
  unfoldable pub received_prim : PrimType → Value → Result CodecError Value
  unfolding to_int64 to_uint64 to_float64
  received_prim int32_prim v = do n ← to_int64 fl v; ok (num int64 (sign_extend 32 (n % 2 ^ 32)))
  received_prim uint32_prim v = do n ← to_uint64 fl v; ok (num uint64 (n % 2 ^ 32))
  received_prim int64_prim v = do n ← to_int64 fl v; ok (num int64 n)
  received_prim uint64_prim v = do n ← to_uint64 fl v; ok (num uint64 n)
  received_prim int16_prim v = do n ← to_int64 fl v; ok (num int64 (sign_extend 16 (n % 2 ^ 16)))
  received_prim uint16_prim v = do n ← to_uint64 fl v; ok (num uint64 (n % 2 ^ 16))
  received_prim byte_prim v = do n ← to_uint64 fl v; ok (num uint64 (n % 2 ^ 8))
  received_prim sbyte_prim v = do n ← to_int64 fl v; ok (num int64 (sign_extend 8 (n % 2 ^ 8)))
  received_prim single_prim v = do f ← to_float64 fl v; ok (float64 (fl.widen (fl.narrow f)))
  received_prim double_prim v = do f ← to_float64 fl v; ok (float64 f)
  received_prim _ v = ok v

  to_int64-lt : (v : Value) (n : ℕ) → InRange v → to_int64 fl v ≡ ok n → n < 2 ^ 64
  unfolding to_int64
  to_int64-lt (num kind m) n h e = ground arith
  to_int64-lt (float64 f) n h e = ground (arith, fl.to_signed_fits f)
  to_int64-lt (float32 f) n h e = ground (arith, fl.to_signed_fits (fl.widen f))
  to_int64-lt _ n h e = cc

  to_uint64-lt : (v : Value) (n : ℕ) → InRange v → to_uint64 fl v ≡ ok n → n < 2 ^ 64
  unfolding to_uint64
  to_uint64-lt (num kind m) n h e = ground arith
  to_uint64-lt (float64 f) n h e = ground (arith, fl.to_unsigned_fits f)
  to_uint64-lt (float32 f) n h e = ground (arith, fl.to_unsigned_fits (fl.widen f))
  to_uint64-lt _ n h e = cc

  to_float64-lt : (v : Value) (n : ℕ) → InRange v → to_float64 fl v ≡ ok n → n < 2 ^ 64
  unfolding to_float64
  to_float64-lt (num int m) n h e = ground (arith, fl.of_signed_fits m)
  to_float64-lt (num int32 m) n h e = ground (arith, fl.of_signed_fits m)
  to_float64-lt (num int64 m) n h e = ground (arith, fl.of_signed_fits m)
  to_float64-lt (num uint32 m) n h e = ground (arith, fl.of_unsigned_fits m)
  to_float64-lt (num uint64 m) n h e = ground (arith, fl.of_unsigned_fits m)
  to_float64-lt (float64 f) n h e = ground arith
  to_float64-lt (float32 f) n h e = ground (arith, fl.widen_fits f)
  to_float64-lt _ n h e = cc

-- A value that is one number on the wire.
number_arrives :
    (m : Result CodecError ℕ) (wire : ℕ → ℕ) (value : ℕ → Value) (k : ℕ) (bytes rest : List ℕ)
    → (m >>= (λ n. ok (le_bytes k (wire n)))) ≡ ok bytes
    → ((n : ℕ) → m ≡ ok n → wire n < 256 ^ k)
    → (w : Value) × ((m >>= (λ n. ok (value (wire n)))) ≡ ok w)
      × (as_value value (read_uint k (bytes ++ rest)) ≡ some (w, rest))
number_arrives (ok n) wire value k bytes rest e h =
    let same : le_bytes k (wire n) ≡ bytes = cc in
    (
      value (wire n),
      refl,
      rw (← same) (ap (as_value value) (read_uint-le_bytes k (wire n) rest (h n refl))),
    )
number_arrives (err x) wire value k bytes rest e h = cc

bool_arrives :
    (v : Value) (bytes rest : List ℕ)
    → encode_bool v ≡ ok bytes
    → as_value (λ n. bool (not (n == 0))) (read_uint 1 (bytes ++ rest)) ≡ some (v, rest)
unfolding encode_bool read_uint
bool_arrives (bool true) bytes rest e = ground arith
bool_arrives (bool false) bytes rest e = ground arith
bool_arrives nil_value bytes rest e = cc
bool_arrives _ bytes rest e = cc

module _ (fl : Floats) where
  -- What is written for a primitive that the encoder accepts is read back as the received value, and
  -- the bytes that follow are left, where numbers are 64-bit patterns and texts can be carried.
  pub decode_prim-encode_prim :
      (p : PrimType) (v : Value) (bytes rest : List ℕ)
      → InRange v
      → TextOk p v
      → encode_prim fl p v ≡ ok bytes
      → (w : Value) × (received_prim fl p v ≡ ok w)
        × (decode_prim fl p (bytes ++ rest) ≡ some (w, rest))
  unfolding encode_prim decode_prim received_prim
  decode_prim-encode_prim int32_prim v bytes rest h t e =
      number_arrives (to_int64 fl v) (λ n. n % 2 ^ 32) (λ n. num int64 (sign_extend 32 n)) 4 bytes
        rest e (λ n _. omega arith)
  decode_prim-encode_prim uint32_prim v bytes rest h t e =
      number_arrives (to_uint64 fl v) (λ n. n % 2 ^ 32) (num uint64) 4 bytes rest e
        (λ n _. omega arith)
  decode_prim-encode_prim int64_prim v bytes rest h t e =
      number_arrives (to_int64 fl v) (λ n. n) (num int64) 8 bytes rest e
        (λ n p. to_int64-lt fl v n h p)
  decode_prim-encode_prim uint64_prim v bytes rest h t e =
      number_arrives (to_uint64 fl v) (λ n. n) (num uint64) 8 bytes rest e
        (λ n p. to_uint64-lt fl v n h p)
  decode_prim-encode_prim int16_prim v bytes rest h t e =
      number_arrives (to_int64 fl v) (λ n. n % 2 ^ 16) (λ n. num int64 (sign_extend 16 n)) 2 bytes
        rest e (λ n _. omega arith)
  decode_prim-encode_prim uint16_prim v bytes rest h t e =
      number_arrives (to_uint64 fl v) (λ n. n % 2 ^ 16) (num uint64) 2 bytes rest e
        (λ n _. omega arith)
  decode_prim-encode_prim byte_prim v bytes rest h t e =
      number_arrives (to_uint64 fl v) (λ n. n % 2 ^ 8) (num uint64) 1 bytes rest e
        (λ n _. omega arith)
  decode_prim-encode_prim sbyte_prim v bytes rest h t e =
      number_arrives (to_int64 fl v) (λ n. n % 2 ^ 8) (λ n. num int64 (sign_extend 8 n)) 1 bytes
        rest e (λ n _. omega arith)
  decode_prim-encode_prim boolean_prim v bytes rest h t e = (v, refl, bool_arrives v bytes rest e)
  decode_prim-encode_prim single_prim v bytes rest h t e =
      number_arrives (to_float64 fl v) fl.narrow (λ n. float64 (fl.widen n)) 4 bytes rest e
        (λ n _. fl.narrow_fits n)
  decode_prim-encode_prim double_prim v bytes rest h t e =
      number_arrives (to_float64 fl v) (λ n. n) float64 8 bytes rest e
        (λ n p. to_float64-lt fl v n h p)
  decode_prim-encode_prim string_prim (text s) bytes rest h t e =
      let same : write_str s ≡ bytes = unfold encode_text in cc in
      (text s, refl, rw (← same) (ap (as_value text) (read_str-write_str s rest t.0 t.1)))
  decode_prim-encode_prim char_array_prim (text s) bytes rest h t e =
      let same : write_char_array s ≡ bytes = unfold encode_text in cc in
      (
        text s,
        refl,
        rw (← same) (ap (as_value text) (read_char_array-write_char_array s rest t.0 t.1)),
      )
  decode_prim-encode_prim string_prim _ bytes rest h t e = cc
  decode_prim-encode_prim char_array_prim _ bytes rest h t e = cc
