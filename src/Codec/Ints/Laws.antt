-- ===== src/Codec/Ints/Laws.antt =====
-- What the integer codecs promise: round trips, refusals, and the width of what they write.
use rosy.Base.{
  ℕ, zero, suc, ◌<◌, ◌≤◌, ◌≡◌, refl, Bool, true, false, [], ◌∷◌, ◌++◌, length, leb, ◌^◌, ◌%◌, ap,
  arith, Bool-cases, inl, inr, append_assoc, sym, lt→ltb,
}
use native.Mathlib.Decide.{dec_lt}
use rosy.Base.Int.{ℤ, pos, negsuc}
use rosy.Base.Exec.{ok, err, overflow_error, value_error}
use rosy.Stream.{Bytes, readexactly-append}
use rosy.Codec.Interface.{Carries}
use rosy.Codec.Bytes.{
  ByteOrder, byte_length, Fits, from_bytes-to_bytes, to_bytes_overflow, byte_length_least,
  abs-lt-byte_length, bit_length, full_bytes,
}
use rosy.Codec.Ints.{
  fixed_length_int_codec, variable_body, variable_encode, variable_rest, variable_decode,
  variable_codec, byte,
}

module _ (k : ℕ) (order : ByteOrder) (signed : Bool) where
  -- A value that fits is carried, in `k` bytes.
  pub fixed-Carries :
      (v : ℤ)
      → Fits k signed v
      → (c : Carries (fixed_length_int_codec k order signed) v) × (length c.wire ≡ k)
  unfolding fixed_length_int_codec
  fixed-Carries v h =
      let (bs, enc, len, back) = from_bytes-to_bytes k order signed v h in
      (
        record {
          wire = bs;
          writes = λ w. rw enc refl;
          reads = λ rest. rw (readexactly-append k bs rest len, back) refl;
        },
        len,
      )

  -- A value that does not fit raises, and nothing is written.
  pub fixed_overflow :
      (v : ℤ) (w : Bytes)
      → ¬ Fits k signed v
      → (fixed_length_int_codec k order signed).encode v w ≡ (err overflow_error, w)
  unfolding fixed_length_int_codec
  fixed_overflow v w h = rw (to_bytes_overflow k order signed v h)

le→leb : (a b : ℕ) → a ≤ b → leb a b ≡ true
le→leb a b h = ground arith

lt→not-leb : (a b : ℕ) → b < a → leb a b ≡ false
lt→not-leb a b h = ground arith

zero_bytes : (v : ℤ) → byte_length v ≡ 0 → v ≡ pos 0
zero_bytes (pos n) h = ap pos (omega (arith, abs-lt-byte_length (pos n), ap (λ k. 256 ^ k) h))
zero_bytes (negsuc n) h = absurd (omega (arith, abs-lt-byte_length (negsuc n), ap (λ k. 256 ^ k) h))

module _ (max : ℕ) (order : ByteOrder) (signed : Bool) where
  body_carried :
      (n : ℕ) (v : ℤ)
      → n ≤ max
      → max ≤ 255
      → (n ≡ 0 → v ≡ pos 0)
      → Fits n signed v
      → (bs : Bytes) × (variable_body n order signed v ≡ ok bs)
        × ((rest : Bytes) → variable_rest max order signed n (bs ++ rest) ≡ (ok v, rest))
  unfolding variable_body variable_rest
  body_carried zero v small limit zero_value h =
      ([], refl, λ rest. ap (λ x. (ok x, rest)) (sym (zero_value refl)))
  body_carried (suc n) v small limit zero_value h =
      let (bs, enc, len, back) = from_bytes-to_bytes (suc n) order signed v h in
      (bs, enc, λ rest. rw (le→leb _ _ small, readexactly-append (suc n) bs rest len, back) refl)

  -- A value whose own bytes hold it, within the limit, is carried behind its length.
  pub variable-Carries :
      (v : ℤ)
      → byte_length v ≤ max
      → max ≤ 255
      → Fits (byte_length v) signed v
      → Carries (variable_codec max order signed) v
  unfolding variable_encode variable_decode byte
  variable-Carries v small limit h =
      let n = byte_length v in
      let (bs, enc, back) = body_carried n v small limit (zero_bytes v) h in
      record {
        wire = n ∷ bs;
        writes = λ w.
            rw (le→leb n max small, lt→ltb n 256 (omega arith), enc)
              (ap (λ l. (ok tt, l)) (append_assoc w (n ∷ []) bs));
        reads = λ rest. back rest;
      }

  -- A value with more bytes than the limit raises, and nothing is written.
  pub variable_overflow :
      (v : ℤ) (w : Bytes)
      → max < byte_length v
      → (variable_codec max order signed).encode v w ≡ (err overflow_error, w)
  unfolding variable_encode
  variable_overflow v w h = rw (lt→not-leb _ _ h) refl

  -- A received length above the limit raises before the value is read.
  pub variable_received :
      (n : ℕ) (rest : Bytes)
      → max < n
      → (variable_codec max order signed).decode (n ∷ rest) ≡ (err value_error, rest)
  unfolding variable_decode variable_rest
  variable_received zero rest h = absurd (omega arith)
  variable_received (suc n) rest h = rw (lt→not-leb _ _ h) refl

-- Without a sign, every number that `max` bytes hold is carried, for a limit `max` from 1 to 255.
variable_unsigned :
    (max n : ℕ) (order : ByteOrder)
    → 0 < max
    → max ≤ 255
    → n < 256 ^ max
    → Carries (variable_codec max order false) (pos n)
variable_unsigned max n order p limit h =
    variable-Carries max order false (pos n) (byte_length_least (pos n) max h) limit
      (abs-lt-byte_length (pos n))

body_overflow :
    (k : ℕ) (order : ByteOrder) (signed : Bool) (v : ℤ)
    → 0 < k
    → ¬ Fits k signed v
    → variable_body k order signed v ≡ err overflow_error
unfolding variable_body
body_overflow zero order signed v p h = absurd (omega arith)
body_overflow (suc k) order signed v p h = to_bytes_overflow (suc k) order signed v h

positive_bytes : (n : ℕ) → 0 < n → 0 < byte_length (pos n)
positive_bytes n p = elim (dec_lt 0 (byte_length (pos n))) [
  | yes q ↦ q
  | no q ↦
      let z : byte_length (pos n) ≡ 0 = omega arith in
      absurd (omega (arith, abs-lt-byte_length (pos n), ap (λ k. 256 ^ k) z))
]

-- With a sign, a positive value whose bits fill its bytes raises, for any limit up to 255, and
-- nothing is written.
pub variable_signed_overflow :
    (max n : ℕ) (order : ByteOrder) (w : Bytes)
    → max ≤ 255
    → 0 < n
    → bit_length (pos n) % 8 ≡ 0
    → (variable_codec max order true).encode (pos n) w ≡ (err overflow_error, w)
unfolding variable_encode byte
variable_signed_overflow max n order w limit p h =
    elim (Bool-cases (leb (byte_length (pos n)) max)) [
      | inr big ↦ rw big refl
      | inl fits ↦ rw (fits, lt→ltb (byte_length (pos n)) 256 (ground arith), body) refl
    ]
  where
    body : variable_body (byte_length (pos n)) order true (pos n) ≡ err overflow_error
    body =
        body_overflow (byte_length (pos n)) order true (pos n) (positive_bytes n p)
          (λ f. omega (arith, f, full_bytes n p h))
