-- ===== src/Stream.antt =====
-- src/rosy/asyncio.py: the readers and writers that the codecs work on.
pub mod Tasks
pub mod Ends
use rosy.Base.{
  ℕ, ◌≡◌, Bool, true, false, List, [], ◌++◌, length, take, drop, ltb, take-length-append,
  take_of_length-le, drop_of_length-le, drop-length-append, if◌then◌else◌, arith, ◌<◌,
}
use rosy.Base.Exec.{Exec, ok, err, runtime_error, incomplete_read, require, ◌>>◌}

-- A byte is a number below 256.
abbrev pub Bytes : Type 0
Bytes = List ℕ

-- `BufferReader.readexactly`: a short read takes what there is and raises.
unfoldable pub readexactly : ℕ → Exec Bytes Bytes
readexactly n stream =
    let data_ = take n stream in
    (if ltb (length data_) n then err incomplete_read else ok data_, drop n stream)

-- `BufferWriter.write`
unfoldable pub write : Bytes → Exec Bytes (Unit {0})
write bytes writer = (ok tt, writer ++ bytes)

-- A writer with the lock that a task must hold to write; `written` is what the wrapped writer got.
pub record LockableWriter : Type 0 where
  pub written : Bytes
  pub locked : Bool
  pub closing : Bool

-- `LockableWriter.require_locked`
unfoldable pub require_locked : Exec LockableWriter (Unit {0})
require_locked s = require s.locked runtime_error s

-- `LockableWriter.write`
unfoldable pub write_locked : Bytes → Exec LockableWriter (Unit {0})
unfolding require_locked
write_locked bytes = do require_locked; λ s. (ok tt, record s { written = s.written ++ bytes })

-- `__aenter__`, once the lock is free: a task that finds it taken waits.
unfoldable pub acquire : LockableWriter → LockableWriter
acquire s = record s { locked = true }

-- `__aexit__`, which runs on an exception too
unfoldable pub release : LockableWriter → LockableWriter
release s = record s { locked = false }

-- `async with writer: body`, for a body that only writes.
unfoldable pub with_lock {ℓ} : {A : Type ℓ} → Exec Bytes A → Exec LockableWriter A
unfolding acquire release
with_lock body s =
    let held = acquire s in
    let (r, bytes) = body held.written in (r, release (record held { written = bytes }))

-- A read of exactly the bytes in front.
pub readexactly-append :
    (n : ℕ) (xs ys : Bytes) → length xs ≡ n → readexactly n (xs ++ ys) ≡ (ok xs, ys)
unfolding readexactly
readexactly-append n xs ys h =
    rw (← h, take-length-append xs ys, drop-length-append xs ys) (ground arith)

-- At the end of the stream a read takes what is left, and raises.
pub readexactly_short :
    (n : ℕ) (xs : Bytes) → length xs < n → readexactly n xs ≡ (err incomplete_read, [])
unfolding readexactly
readexactly_short n xs h =
    rw (take_of_length-le n xs (omega arith), drop_of_length-le n xs (omega arith)) (ground arith)
