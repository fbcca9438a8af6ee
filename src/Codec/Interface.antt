-- ===== src/Codec/Interface.antt =====
-- The interface `Codec` of src/rosy/codec.py, and what a client may rely on at a value.
use rosy.Base.{◌≡◌, ◌++◌}
use rosy.Base.Exec.{Exec, ok}
use rosy.Stream.{Bytes}

pub record Codec (T : Type 0) : Type 0 where
  pub encode : T → Exec Bytes (Unit {0})
  pub decode : Exec Bytes T

-- `c` writes `v` as the bytes `wire` behind what the writer has, and reads exactly these bytes
-- back as `v`, whatever follows them on the stream.
pub record Carries {T : Type 0} (c : Codec T) (v : T) : Type 0 where
  pub wire : Bytes
  pub writes : (w : Bytes) → c.encode v w ≡ (ok tt, w ++ wire)
  pub reads : (rest : Bytes) → c.decode (wire ++ rest) ≡ (ok v, rest)

-- As `Carries`, where the reader gets `v'` for the `v` that was written.
pub record Sends {T : Type 0} (c : Codec T) (v v' : T) : Type 0 where
  pub wire : Bytes
  pub writes : (w : Bytes) → c.encode v w ≡ (ok tt, w ++ wire)
  pub reads : (rest : Bytes) → c.decode (wire ++ rest) ≡ (ok v', rest)
