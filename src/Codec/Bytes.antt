-- ===== src/Codec/Bytes.antt =====
-- `int.to_bytes` and `int.from_bytes` of Python, and `byte_length` of src/rosy/codec.py.
use native.Mathlib.Nat.{pow-suc, pow-le-pow_right}
use native.Mathlib.Numerals.{towards_suc}
use native.Mathlib.Decide.{dec_le, dec_lt}
use mathlib.Core.Path.{ap₂, ◌∙◌}
use rosy.Base.{
  ℕ, zero, suc, ◌+◌, ◌-◌, ◌*◌, ◌/◌, ◌%◌, ◌^◌, ◌<◌, ◌≤◌, ◌≡◌, refl, ap, Bool, true, false, [], ◌∷◌,
  reverse, length, length-reverse, ltb, leb, if◌then◌else◌, arith, ◌==◌, Bool-cases, inl, inr,
}
use mathlib.Core.List.{reverse-reverse}
use rosy.Base.Int.{ℤ, pos, negsuc, abs}
use rosy.Base.Exec.{Result, ok, err, overflow_error}
use rosy.Stream.{Bytes}

pub data ByteOrder : Type 0 where
  big little : ByteOrder

-- `length` bytes, the least significant first
pub le_bytes : ℕ → ℕ → Bytes
le_bytes zero n = []
le_bytes (suc k) n = (n % 256) ∷ le_bytes k (n / 256)

pub le_value : Bytes → ℕ
le_value [] = 0
le_value (b ∷ bs) = b + 256 * le_value bs

abbrev pub arrange : ByteOrder → Bytes → Bytes
arrange little bs = bs
arrange big bs = reverse bs

-- The bit pattern of the value, if it fits: two's complement where signed.
unfoldable pub pattern_of : ℕ → Bool → ℤ → Result ℕ
pattern_of k false (pos n) = if ltb n (256 ^ k) then ok n else err overflow_error
pattern_of k false (negsuc n) = err overflow_error
pattern_of k true (pos n) = if ltb (2 * n) (256 ^ k) then ok n else err overflow_error
pattern_of k true (negsuc n) =
    if leb (2 * suc n) (256 ^ k) then ok (256 ^ k - suc n) else err overflow_error

unfoldable pub value_of : ℕ → Bool → ℕ → ℤ
value_of k false n = pos n
value_of k true n = if ltb (2 * n) (256 ^ k) then pos n else negsuc (256 ^ k - n - 1)

abbrev arranged : ℕ → ByteOrder → Result ℕ → Result Bytes
arranged k order (ok n) = ok (arrange order (le_bytes k n))
arranged k order (err e) = err e

-- `value.to_bytes(length, byteorder=order, signed=signed)`
unfoldable pub to_bytes : ℕ → ByteOrder → Bool → ℤ → Result Bytes
unfolding pattern_of le_bytes
to_bytes k order signed value = arranged k order (pattern_of k signed value)

-- `int.from_bytes(data, byteorder=order, signed=signed)`
unfoldable pub from_bytes : ByteOrder → Bool → Bytes → ℤ
unfolding value_of le_value
from_bytes order signed bytes = value_of (length bytes) signed (le_value (arrange order bytes))

pub length-le_bytes : (k n : ℕ) → length (le_bytes k n) ≡ k
unfolding le_bytes
length-le_bytes zero n = refl
length-le_bytes (suc k) n = ap suc (length-le_bytes k (n / 256))

pub le_value-le_bytes : (k n : ℕ) → n < 256 ^ k → le_value (le_bytes k n) ≡ n
unfolding le_bytes le_value
le_value-le_bytes zero n h = omega arith
le_value-le_bytes (suc k) n h =
    let small : n / 256 < 256 ^ k = omega (arith, pow-suc 256 k) in
    omega (arith, le_value-le_bytes k (n / 256) small)

length-arrange : (order : ByteOrder) (bs : Bytes) → length (arrange order bs) ≡ length bs
length-arrange little bs = refl
length-arrange big bs = length-reverse bs

arrange-arrange : (order : ByteOrder) (bs : Bytes) → arrange order (arrange order bs) ≡ bs
arrange-arrange little bs = refl
arrange-arrange big bs = reverse-reverse bs

-- The values that `length` bytes can hold.
abbrev pub Fits : ℕ → Bool → ℤ → Type 0
Fits k false (pos n) = n < 256 ^ k
Fits k false (negsuc n) = ⊥
Fits k true (pos n) = 2 * n < 256 ^ k
Fits k true (negsuc n) = 2 * suc n ≤ 256 ^ k

pattern_of-Fits :
    (k : ℕ) (signed : Bool) (v : ℤ)
    → Fits k signed v
    → (n : ℕ) × (pattern_of k signed v ≡ ok n) × (n < 256 ^ k) × (value_of k signed n ≡ v)
unfolding pattern_of value_of
pattern_of-Fits k false (pos n) h = (n, ground arith, h, refl)
pattern_of-Fits k false (negsuc n) h = absurd h
pattern_of-Fits k true (pos n) h = (n, ground arith, omega arith, ground arith)
pattern_of-Fits k true (negsuc n) h = (256 ^ k - suc n, ground arith, omega arith, ground arith)

pattern_of_overflow :
    (k : ℕ) (signed : Bool) (v : ℤ) → ¬ Fits k signed v → pattern_of k signed v ≡ err overflow_error
unfolding pattern_of
pattern_of_overflow k false (pos n) h = ground arith
pattern_of_overflow k false (negsuc n) h = refl
pattern_of_overflow k true (pos n) h = ground arith
pattern_of_overflow k true (negsuc n) h = ground arith

pub to_bytes_overflow :
    (k : ℕ) (order : ByteOrder) (signed : Bool) (v : ℤ)
    → ¬ Fits k signed v
    → to_bytes k order signed v ≡ err overflow_error
unfolding to_bytes
to_bytes_overflow k order signed v h = rw (pattern_of_overflow k signed v h)

-- What fits comes back, through exactly `k` bytes.
pub from_bytes-to_bytes :
    (k : ℕ) (order : ByteOrder) (signed : Bool) (v : ℤ)
    → Fits k signed v
    → (bs : Bytes) × (to_bytes k order signed v ≡ ok bs)
      × (length bs ≡ k)
      × (from_bytes order signed bs ≡ v)
unfolding to_bytes from_bytes
from_bytes-to_bytes k order signed v h =
    let (n, fits, small, back) = pattern_of-Fits k signed v h in
    let bs = arrange order (le_bytes k n) in
    let len : length bs ≡ k = length-arrange order (le_bytes k n) ∙ length-le_bytes k n in
    (
      bs,
      ap (arranged k order) fits,
      len,
      ap₂ (λ m x. value_of m signed (le_value x)) len (arrange-arrange order (le_bytes k n))
          ∙ ap (value_of k signed) (le_value-le_bytes k n small)
          ∙ back,
    )

-- `int.bit_length` of the absolute value, by halving on fuel
bits : ℕ → ℕ → ℕ
bits zero n = 0
bits (suc f) n = let more = bits f (n / 2) in if n == 0 then 0 else suc more

-- `value.bit_length()`; halving `n` times is enough for `n`
unfoldable pub bit_length : ℤ → ℕ
unfolding bits
bit_length v = bits (abs v) (abs v)

-- `byte_length`
unfoldable pub byte_length : ℤ → ℕ
unfolding bit_length
byte_length v = (bit_length v + 7) / 8

bits_bound : (f n : ℕ) → n ≤ f → n < 2 ^ bits f n
unfolding bits
bits_bound zero n h = omega arith
bits_bound (suc f) n h = elim (Bool-cases (n == 0)) [
  | inl z ↦ rw z (ground arith)
  | inr p ↦ rw p (ground (arith, bits_bound f (n / 2) (ground arith), pow-suc 2 (bits f (n / 2))))
]

bits_zero : (f n : ℕ) → n ≡ 0 → bits f n ≡ 0
unfolding bits
bits_zero zero n h = refl
bits_zero (suc f) n h = ground arith

-- For a positive number the bound is the least power of two.
bits_least : (f n : ℕ) → n ≤ f → 0 < n → 2 ^ bits f n ≤ 2 * n
unfolding bits
bits_least zero n h p = absurd (omega arith)
bits_least (suc f) n h p = elim (Bool-cases (n == 0)) [
  | inl z ↦ absurd (ground arith)
  | inr q ↦ rw q (elim (Bool-cases (n / 2 == 0)) [
    | inl z ↦ rw (bits_zero f (n / 2) (ground arith)) (omega arith)
    | inr r ↦
        omega (arith, bits_least f (n / 2) (omega arith) (ground arith), pow-suc 2 (bits f (n / 2)))
  ])
]

pub pow-two-byte : (k : ℕ) → 2 ^ (8 * k) ≡ 256 ^ k
pow-two-byte zero = refl
pow-two-byte (suc k) =
    let e : 8 * suc k ≡ 8 * k + 8 = omega arith in
    rw e (simp towards_suc (omega (arith, pow-two-byte k, pow-suc 256 k)))

-- The magnitude of a value fits into `byte_length` bytes.
pub abs-lt-byte_length : (v : ℤ) → abs v < 256 ^ byte_length v
unfolding byte_length bit_length
abs-lt-byte_length v =
    let b = bit_length v in
    let mono : 2 ^ b ≤ 2 ^ (8 * ((b + 7) / 8)) = pow-le-pow_right (omega arith) (omega arith) in
    omega (arith, bits_bound (abs v) (abs v) (omega arith), mono, pow-two-byte ((b + 7) / 8))

-- No smaller number of bytes holds it.
pub byte_length_least : (v : ℤ) (k : ℕ) → abs v < 256 ^ k → byte_length v ≤ k
unfolding byte_length bit_length
byte_length_least v k h = elim (dec_le (bit_length v) (8 * k)) [
  | yes p ↦ omega arith
  | no p ↦ absurd (too_long (omega arith))
]
  where
    too_long : 8 * k < bit_length v → ⊥
    too_long p =
        let mono : 2 ^ suc (8 * k) ≤ 2 ^ bit_length v = pow-le-pow_right (omega arith) p in
        elim (dec_lt 0 (abs v)) [
          | yes q ↦ omega (
            arith,
            mono,
            bits_least (abs v) (abs v) (omega arith) q,
            pow-suc 2 (8 * k),
            pow-two-byte k,
          )
          | no q ↦ omega (arith, p, ap (λ n. bits n n) (zero_of q))
        ]
      where
        zero_of : ¬ (0 < abs v) → abs v ≡ 0
        zero_of q = omega arith

-- Where the bits fill their bytes the leading bit is set.
pub full_bytes : (n : ℕ) → 0 < n → bit_length (pos n) % 8 ≡ 0 → 256 ^ byte_length (pos n) ≤ 2 * n
unfolding byte_length bit_length
full_bytes n p h =
    let e : bits n n ≡ 8 * ((bits n n + 7) / 8) = omega arith in
    omega
      (arith, bits_least n n (omega arith) p, pow-two-byte ((bits n n + 7) / 8), ap (λ b. 2 ^ b) e)
