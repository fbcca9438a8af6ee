-- ===== src/Codec/Ints.antt =====
-- FixedLengthIntCodec and VariableLengthIntCodec of src/rosy/codec.py.
pub mod Laws
use rosy.Base.{
  ℕ, zero, suc, ◌<◌, ◌≤◌, ◌≡◌, Bool, true, false, List, [], ◌∷◌, ◌++◌, length, ltb, leb, ◌&&◌, ◌==◌,
  if◌then◌else◌, arith,
}
use rosy.Base.Int.{ℤ, pos, negsuc}
use rosy.Base.Exec.{
  Exec, Result, ok, err, pure, raise, lift, require, ◌>>=◌, ◌>>◌, after, overflow_error,
  value_error,
}
use rosy.Stream.{Bytes, readexactly, write}
use rosy.Codec.Interface.{Codec}
use rosy.Codec.Bytes.{ByteOrder, to_bytes, from_bytes, byte_length}

unfoldable pub fixed_encode : ℕ → ByteOrder → Bool → ℤ → Exec Bytes (Unit {0})
unfolding write
fixed_encode length order signed value = do
  bytes ← lift (to_bytes length order signed value)
  write bytes

unfoldable pub fixed_decode : ℕ → ByteOrder → Bool → Exec Bytes ℤ
unfolding readexactly
fixed_decode length order signed = do
  bytes ← readexactly length
  pure (from_bytes order signed bytes)

-- `FixedLengthIntCodec(length, byte_order, signed)`
unfoldable pub fixed_length_int_codec : ℕ → ByteOrder → Bool → Codec ℤ
unfolding fixed_encode fixed_decode
fixed_length_int_codec length order signed = record {
  encode = fixed_encode length order signed;
  decode = fixed_decode length order signed;
}

-- The value's bytes behind the header, or none at all (`data = None`) for zero.
unfoldable pub variable_body : ℕ → ByteOrder → Bool → ℤ → Result Bytes
variable_body zero order signed value = ok []
variable_body (suc n) order signed value = to_bytes (suc n) order signed value

-- `bytes([n])`
unfoldable pub byte : ℕ → Result Bytes
byte n = if ltb n 256 then ok (n ∷ []) else err value_error

unfoldable pub variable_encode : ℕ → ByteOrder → Bool → ℤ → Exec Bytes (Unit {0})
unfolding write variable_body byte
variable_encode max_byte_length order signed value = do
  let int_byte_length = byte_length value
  require (leb int_byte_length max_byte_length) overflow_error
  header ← lift (byte int_byte_length)
  bytes ← lift (variable_body int_byte_length order signed value)
  write header
  write bytes

-- The rest of `decode`, after the header byte.
unfoldable pub variable_rest : ℕ → ByteOrder → Bool → ℕ → Exec Bytes ℤ
unfolding readexactly
variable_rest max_byte_length order signed zero = pure (pos 0)
variable_rest max_byte_length order signed (suc n) = do
  require (leb (suc n) max_byte_length) value_error
  bytes ← readexactly (suc n)
  pure (from_bytes order signed bytes)

abbrev first_byte : Bytes → ℕ
first_byte [] = 0
first_byte (b ∷ _) = b

unfoldable pub variable_decode : ℕ → ByteOrder → Bool → Exec Bytes ℤ
unfolding readexactly variable_rest
variable_decode max_byte_length order signed = do
  header ← readexactly 1
  variable_rest max_byte_length order signed (first_byte header)

abbrev pub variable_codec : ℕ → ByteOrder → Bool → Codec ℤ
variable_codec max_byte_length order signed = record {
  encode = variable_encode max_byte_length order signed;
  decode = variable_decode max_byte_length order signed;
}

-- `VariableLengthIntCodec(max_byte_length, byte_order, signed)`, with the constructor's test
unfoldable pub variable_length_int_codec : ℕ → ByteOrder → Bool → Result (Codec ℤ)
unfolding variable_encode variable_decode
variable_length_int_codec max_byte_length order signed =
    if ltb 0 max_byte_length && leb max_byte_length 255
    then ok (variable_codec max_byte_length order signed)
    else err value_error
