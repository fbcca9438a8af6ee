-- ===== src/Cli/Bag/Size.antt =====
-- `get_human_readable_size` of src/rosy/cli/bag/info.py. The first division by 1024 rounds the size
-- to a float, and a division of a float by 1024 is exact, so a size is a float of bytes over a power
-- of 1024; `round` goes to the even neighbour of a half.
use native.Mathlib.Nat.{mod-lt, mod-add-div'}
use rosy.Base.{
  subst, ℕ, zero, suc, ◌≡◌, ◌∙◌, ◌+◌, ◌*◌, ◌/◌, ◌%◌, ◌≤◌, ◌<◌, ltb, ◌==◌, if◌then◌else◌, arith,
}

pub data SizeUnit : Type 0 where
  b kb mb gb : SizeUnit

-- `round(q + r / d)` for a rest `r` below `d`.
unfoldable pub nearest : ℕ → ℕ → ℕ → ℕ
nearest q r d =
    if ltb (2 * r) d then q else if ltb d (2 * r) then suc q else if q % 2 == 0 then q else suc q

-- `round(n / d)`
unfoldable pub round : ℕ → ℕ → ℕ
unfolding nearest
round n d = nearest (n / d) (n % d) d

-- The float of an integer: 53 bits of it, rounded to the even neighbour of a half. `u` is the unit
-- of the last bit, and each step of the fuel doubles it.
unfoldable pub scaled : ℕ → ℕ → ℕ → ℕ
scaled zero u n = n
scaled (suc fuel) u n =
    let rest = scaled fuel (2 * u) n in if ltb n (9007199254740992 * u) then round n u * u else rest

-- The fuel is enough up to the greatest float; a larger integer raises an `OverflowError`, which is
-- left out.
unfoldable pub to_float : ℕ → ℕ
to_float n = scaled 1024 1 n

-- The first division makes a float of the size, rounded; those after it are exact. A size that is
-- not divided is an integer, as it is.
unfoldable pub get_human_readable_size : ℕ → ℕ × SizeUnit
get_human_readable_size size =
    let n = to_float size in
    if ltb size 1024
    then (size, b)
    else if ltb n (1024 * 1024)
    then (round n 1024, kb)
    else if ltb n (1024 * 1024 * 1024)
    then (round n (1024 * 1024), mb)
    else (round n (1024 * 1024 * 1024), gb)

-- The bytes of a unit.
abbrev pub bytes_of : SizeUnit → ℕ
bytes_of b = 1
bytes_of kb = 1024
bytes_of mb = 1048576
bytes_of gb = 1073741824

-- The number is at most half a unit off.
abbrev pub Close : ℕ → ℕ → ℕ → Type 0
Close size n unit = (2 * (n * unit) ≤ 2 * size + unit) × (2 * size ≤ 2 * (n * unit) + unit)

Close-down : (q r d : ℕ) → 2 * r ≤ d → Close (r + q * d) q d
Close-down q r d h = (omega arith, omega arith)

Close-up : (q r d : ℕ) → r < d → d ≤ 2 * r → Close (r + q * d) (suc q) d
Close-up q r d h k = (omega arith, omega arith)

nearest-Close : (q r d : ℕ) → r < d → Close (r + q * d) (nearest q r d) d
unfolding nearest
nearest-Close q r d h = ground (arith, Close-down q r d, Close-up q r d h)

round-Close : (n d : ℕ) → 0 < d → Close n (round n d) d
unfolding round
round-Close n d h =
    subst (λ m. Close m (nearest (n / d) (n % d) d) d) (mod-add-div' n d)
      (nearest-Close (n / d) (n % d) d (mod-lt n h))

scaled_low : (fuel u n : ℕ) → n < 9007199254740992 * u → scaled (suc fuel) u n ≡ round n u * u
unfolding scaled
scaled_low fuel u n h = ground arith

-- A float holds an integer below 2 ^ 53.
to_float-eq : (n : ℕ) → n < 9007199254740992 → to_float n ≡ n
unfolding to_float
to_float-eq n h = scaled_low 1023 1 n (omega arith) ∙ omega (arith, round-Close n 1 (omega arith))

-- The unit is the one that leaves less than 1024 of it, where there is one.
abbrev pub Fits : ℕ → SizeUnit → Type 0
Fits size b = size < 1024
Fits size kb = (1024 ≤ size) × (size < 1048576)
Fits size mb = (1048576 ≤ size) × (size < 1073741824)
Fits size gb = 1073741824 ≤ size

-- The unit that is shown for a size below 2 ^ 53 bytes is B below 1024, KB below 1024 ^ 2, MB below
-- 1024 ^ 3 and else GB, and the number is at most half of the unit off.
pub get_human_readable_size-Close :
    (size : ℕ)
    → size < 9007199254740992
    → Fits size (get_human_readable_size size).1
      × Close size (get_human_readable_size size).0 (bytes_of (get_human_readable_size size).1)
unfolding get_human_readable_size
get_human_readable_size-Close size h =
    let exact = to_float-eq size h in
    let in_kb = round-Close size 1024 (omega arith) in
    let in_mb = round-Close size 1048576 (omega arith) in
    let in_gb = round-Close size 1073741824 (omega arith) in rw exact (ground arith)
