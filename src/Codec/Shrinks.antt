-- ===== src/Codec/Shrinks.antt =====
-- No decoder puts bytes back: what is left of the stream is no longer than it was.
use rosy.Base.{ℕ, zero, suc, ◌≤◌, length, length-drop, Bool, arith}
use rosy.Base.Int.{ℤ, pos, negsuc}
use rosy.Base.Dict.{Dict}
use rosy.Base.Exec.{Error, Result, Exec, ok, err, pure, raise, lift, ◌>>=◌, after}
use rosy.Stream.{Bytes, readexactly}
use rosy.Codec.Interface.{Codec}
use rosy.Codec.Bytes.{ByteOrder}
use rosy.Codec.Ints.{fixed_length_int_codec}
use rosy.Codec.Containers.{
  read_counted, string_rest, string_decode, string_codec, decode_items, sequence_decode,
  sequence_codec, decode_entries, dict_decode, dict_codec,
}
use rosy.Codec.Serializers.{
  Serializer, len_header, pickle_codec, json_codec, msgpack_codec, pickle_decode, json_decode,
  msgpack_decode,
}

pub record Shrinks {T : Type 0} (decode : Exec Bytes T) : Type 0 where
  pub at : (stream : Bytes) → length (decode stream).1 ≤ length stream

module _ {A B : Type 0} where
  after-le :
      (n : ℕ) (r : Result A × Bytes) (f : A → Exec Bytes B)
      → length r.1 ≤ n
      → ((a : A) → Shrinks (f a))
      → length (after r f).1 ≤ n
  after-le n (ok a, s) f h k = omega (arith, (k a).at s)
  after-le n (err e, s) f h k = h

  pub Shrinks-bind :
      {m : Exec Bytes A} {f : A → Exec Bytes B}
      → Shrinks m
      → ((a : A) → Shrinks (f a))
      → Shrinks (m >>= f)
  Shrinks-bind {m} {f} h k = record { at = λ s. after-le (length s) (m s) f (h.at s) k }

pub Shrinks-pure : {A : Type 0} {a : A} → Shrinks (pure a)
Shrinks-pure = record { at = λ s. omega arith }

pub Shrinks-raise : {A : Type 0} {e : Error} → Shrinks {T = A} (raise e)
Shrinks-raise = record { at = λ s. omega arith }

pub Shrinks-lift : {A : Type 0} {r : Result A} → Shrinks (lift r)
Shrinks-lift = record { at = λ s. omega arith }

pub readexactly-Shrinks : (n : ℕ) → Shrinks (readexactly n)
unfolding readexactly
readexactly-Shrinks n = record { at = λ s. omega (arith, length-drop n s) }

pub ruleset shrinking =
    (Shrinks-bind, Shrinks-pure, Shrinks-raise, Shrinks-lift, readexactly-Shrinks)

pub fixed-Shrinks :
    (k : ℕ) (order : ByteOrder) (signed : Bool)
    → Shrinks (fixed_length_int_codec k order signed).decode
unfolding fixed_length_int_codec
fixed-Shrinks k order signed = search shrinking

read_counted-Shrinks : (n : ℤ) → Shrinks (read_counted n)
unfolding read_counted
read_counted-Shrinks (pos n) = search shrinking
read_counted-Shrinks (negsuc n) = search shrinking

string_rest-Shrinks : (n : ℤ) → Shrinks (string_rest n)
unfolding string_rest
string_rest-Shrinks (pos zero) = search shrinking
string_rest-Shrinks (pos (suc n)) = search (shrinking)
string_rest-Shrinks (negsuc n) = search shrinking

pub string-Shrinks : (len : Codec ℤ) → Shrinks len.decode → Shrinks (string_codec len).decode
unfolding string_codec string_decode
string-Shrinks len h = search (shrinking, string_rest-Shrinks)

module _ {T : Type 0} where
  items-Shrinks : (item : Codec T) → Shrinks item.decode → (n : ℕ) → Shrinks (decode_items item n)
  unfolding decode_items
  items-Shrinks item h zero = search shrinking
  items-Shrinks item h (suc n) =
      Shrinks-bind h (λ x. Shrinks-bind (items-Shrinks item h n) (λ xs. Shrinks-pure))

  pub sequence-Shrinks :
      (len : Codec ℤ) (item : Codec T)
      → Shrinks len.decode
      → Shrinks item.decode
      → Shrinks (sequence_codec len item).decode
  unfolding sequence_codec sequence_decode
  sequence-Shrinks len item h k = search (shrinking, items-Shrinks)

module _ {K V : Type 0} (dec : Discrete K) where
  entries-Shrinks :
      (key : Codec K) (value : Codec V)
      → Shrinks key.decode
      → Shrinks value.decode
      → (n : ℕ) (d : Dict K V) → Shrinks (decode_entries dec key value n d)
  unfolding decode_entries
  entries-Shrinks key value h k zero d = search shrinking
  entries-Shrinks key value h k (suc n) d = search (shrinking, entries-Shrinks key value h k n)

  pub dict-Shrinks :
      (len : Codec ℤ) (key : Codec K) (value : Codec V)
      → Shrinks len.decode
      → Shrinks key.decode
      → Shrinks value.decode
      → Shrinks (dict_codec dec len key value).decode
  unfolding dict_codec dict_decode
  dict-Shrinks len key value h k v = search (shrinking, entries-Shrinks)

-- The data codecs that the builder offers.
module _ {Data : Type 0} (lib : Serializer Data) where
  pub pickle-Shrinks : Shrinks (pickle_codec lib).decode
  unfolding pickle_codec pickle_decode len_header
  pickle-Shrinks = search (shrinking, fixed-Shrinks, read_counted-Shrinks)

  pub json-Shrinks : Shrinks (json_codec lib).decode
  unfolding json_codec json_decode len_header
  json-Shrinks = search (shrinking, fixed-Shrinks, read_counted-Shrinks)

  pub msgpack-Shrinks : Shrinks (msgpack_codec lib).decode
  unfolding msgpack_codec msgpack_decode len_header
  msgpack-Shrinks = search (shrinking, fixed-Shrinks, read_counted-Shrinks)
