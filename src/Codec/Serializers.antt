-- ===== src/Codec/Serializers.antt =====
-- PickleCodec, JsonCodec and MsgpackCodec of src/rosy/codec.py. The serializers themselves (pickle,
-- orjson and msgpack) are third-party or C code: each is a parameter.
use rosy.Base.{ℕ, ◌≡◌, refl, ap, ◌++◌, length, append_assoc, false, ◌<◌, ◌^◌, Option, none, some}
use rosy.Base.Int.{ℤ, pos}
use rosy.Base.Exec.{Exec, Result, ok, lift, ◌>>=◌, ◌>>◌}
use rosy.Stream.{Bytes, write, readexactly-append}
use rosy.Codec.Interface.{Codec, Carries}
use rosy.Codec.Bytes.{ByteOrder}
use rosy.Codec.Ints.{fixed_length_int_codec}
use rosy.Codec.Ints.Laws.{fixed-Carries}
use rosy.Codec.Containers.{read_counted}

-- `dumps` and `loads` of a serializer, with the keyword arguments given.
pub record Serializer (Data : Type 0) : Type 0 where
  pub dumps : Data → Result Bytes
  pub loads : Bytes → Result Data

-- `len_header_codec or FixedLengthIntCodec(len_header_bytes)`
unfoldable pub len_header : Option (Codec ℤ) → ℕ → Codec ℤ
len_header (some len_header_codec) len_header_bytes = len_header_codec
len_header none len_header_bytes = fixed_length_int_codec len_header_bytes ByteOrder.little false

module _ {Data : Type 0} (lib : Serializer Data) (len_header_codec : Codec ℤ) where
  -- `PickleCodec.encode`: the dump goes to a buffer of its own first.
  unfoldable pub pickle_encode : Data → Exec Bytes (Unit {0})
  unfolding write
  pickle_encode obj = do
    buffer ← lift (lib.dumps obj)
    len_header_codec.encode (pos (length buffer))
    write buffer

  unfoldable pub pickle_decode : Exec Bytes Data
  unfolding read_counted
  pickle_decode = do
    data_len ← len_header_codec.decode
    bytes ← read_counted data_len
    lift (lib.loads bytes)

  unfoldable pub json_encode : Data → Exec Bytes (Unit {0})
  unfolding write
  json_encode obj = do
    bytes ← lift (lib.dumps obj)
    len_header_codec.encode (pos (length bytes))
    write bytes

  unfoldable pub json_decode : Exec Bytes Data
  unfolding read_counted
  json_decode = do
    data_len ← len_header_codec.decode
    bytes ← read_counted data_len
    lift (lib.loads bytes)

  unfoldable pub msgpack_encode : Data → Exec Bytes (Unit {0})
  unfolding write
  msgpack_encode obj = do
    bytes ← lift (lib.dumps obj)
    len_header_codec.encode (pos (length bytes))
    write bytes

  unfoldable pub msgpack_decode : Exec Bytes Data
  unfolding read_counted
  msgpack_decode = do
    data_len ← len_header_codec.decode
    bytes ← read_counted data_len
    lift (lib.loads bytes)

-- The three codecs with default settings: a header of four bytes.
module _ {Data : Type 0} (lib : Serializer Data) where
  unfoldable pub pickle_codec : Codec Data
  unfolding pickle_encode pickle_decode len_header
  pickle_codec = record {
    encode = pickle_encode lib (len_header none 4);
    decode = pickle_decode lib (len_header none 4);
  }

  unfoldable pub json_codec : Codec Data
  unfolding json_encode json_decode len_header
  json_codec = record {
    encode = json_encode lib (len_header none 4);
    decode = json_decode lib (len_header none 4);
  }

  unfoldable pub msgpack_codec : Codec Data
  unfolding msgpack_encode msgpack_decode len_header
  msgpack_codec = record {
    encode = msgpack_encode lib (len_header none 4);
    decode = msgpack_decode lib (len_header none 4);
  }

-- The value survives the serializer, which returns at most 2³² - 1 bytes for it.
pub record Survives {Data : Type 0} (lib : Serializer Data) (v : Data) : Type 0 where
  pub dumped : Bytes
  pub dumps_ok : lib.dumps v ≡ ok dumped
  pub loads_ok : lib.loads dumped ≡ ok v
  pub in_range : length dumped < 256 ^ 4

module _ {Data : Type 0} (lib : Serializer Data) (v : Data) (s : Survives lib v) where
  read_dumped :
      (rest : Bytes) → read_counted (pos (length s.dumped)) (s.dumped ++ rest) ≡ (ok s.dumped, rest)
  unfolding read_counted
  read_dumped rest = readexactly-append (length s.dumped) s.dumped rest refl

  header : Carries (len_header none 4) (pos (length s.dumped))
  unfolding len_header
  header = (fixed-Carries 4 ByteOrder.little false (pos (length s.dumped)) s.in_range).0

  abbrev framed : Bytes
  framed = header.wire ++ s.dumped

  framed_append :
      (w : Bytes)
      → ◌≡◌ {A = Result (Unit {0}) × Bytes}
          (ok tt, (w ++ header.wire) ++ s.dumped)
          (ok tt, w ++ framed)
  framed_append w = ap (λ l. (ok tt, l)) (append_assoc w header.wire s.dumped)

  pub pickle-Carries : Carries (pickle_codec lib) v
  unfolding pickle_codec write
  pickle-Carries = record {
    wire = framed;
    writes = λ w. rw (s.dumps_ok, header.writes w) (framed_append w);
    reads = λ rest. rw (append_assoc, header.reads, read_dumped rest, s.loads_ok) refl;
  }

  pub json-Carries : Carries (json_codec lib) v
  unfolding json_codec write
  json-Carries = record {
    wire = framed;
    writes = λ w. rw (s.dumps_ok, header.writes w) (framed_append w);
    reads = λ rest. rw (append_assoc, header.reads, read_dumped rest, s.loads_ok) refl;
  }

  pub msgpack-Carries : Carries (msgpack_codec lib) v
  unfolding msgpack_codec write
  msgpack-Carries = record {
    wire = framed;
    writes = λ w. rw (s.dumps_ok, header.writes w) (framed_append w);
    reads = λ rest. rw (append_assoc, header.reads, read_dumped rest, s.loads_ok) refl;
  }
