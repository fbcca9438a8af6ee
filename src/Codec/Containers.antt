-- ===== src/Codec/Containers.antt =====
-- LengthPrefixedStringCodec, SequenceCodec and DictCodec of src/rosy/codec.py.
pub mod Laws
use rosy.Base.{ℕ, zero, suc, ◌≡◌, List, [], ◌∷◌, ◌++◌, length}
use rosy.Base.Int.{ℤ, pos, negsuc}
use rosy.Base.Text.{Text}
use rosy.Base.Dict.{Dict, set}
use rosy.Base.Exec.{Exec, Result, ok, err, pure, raise, lift, ◌>>=◌, ◌>>◌, after, value_error}
use rosy.Stream.{Bytes, readexactly, write}
use rosy.Codec.Interface.{Codec}
use rosy.Codec.Utf8.{encode_text, decode_text}

-- `reader.readexactly(n)` for a received length; the stream refuses a negative one.
unfoldable pub read_counted : ℤ → Exec Bytes Bytes
unfolding readexactly
read_counted (pos n) = readexactly n
read_counted (negsuc n) = raise value_error

unfoldable pub string_encode : Codec ℤ → Text → Exec Bytes (Unit {0})
unfolding write
string_encode len_prefix_codec text = do
  bytes ← lift (encode_text text)
  len_prefix_codec.encode (pos (length bytes))
  write bytes

unfoldable pub string_rest : ℤ → Exec Bytes Text
unfolding read_counted
string_rest (pos zero) = pure []
string_rest length = do bytes ← read_counted length; lift (decode_text bytes)

unfoldable pub string_decode : Codec ℤ → Exec Bytes Text
unfolding string_rest
string_decode len_prefix_codec = do length ← len_prefix_codec.decode; string_rest length

-- `LengthPrefixedStringCodec(len_prefix_codec)`, with the encoding "utf-8" that every use has
unfoldable pub string_codec : Codec ℤ → Codec Text
unfolding string_encode string_decode
string_codec len_prefix_codec = record {
  encode = string_encode len_prefix_codec;
  decode = string_decode len_prefix_codec;
}

-- `range(length)` runs no round for a negative length.
abbrev pub rounds : ℤ → ℕ
rounds (pos n) = n
rounds (negsuc n) = 0

module _ {T : Type 0} where
  unfoldable pub encode_items : Codec T → List T → Exec Bytes (Unit {0})
  encode_items item_codec [] = pure tt
  encode_items item_codec (item ∷ items) = do item_codec.encode item; encode_items item_codec items

  unfoldable pub decode_items : Codec T → ℕ → Exec Bytes (List T)
  decode_items item_codec zero = pure []
  decode_items item_codec (suc n) = do
    item ← item_codec.decode
    items ← decode_items item_codec n
    pure (item ∷ items)

  unfoldable pub sequence_encode : Codec ℤ → Codec T → List T → Exec Bytes (Unit {0})
  unfolding encode_items
  sequence_encode len_header_codec item_codec sequence = do
    len_header_codec.encode (pos (length sequence))
    encode_items item_codec sequence

  unfoldable pub sequence_decode : Codec ℤ → Codec T → Exec Bytes (List T)
  unfolding decode_items
  sequence_decode len_header_codec item_codec = do
    length ← len_header_codec.decode
    decode_items item_codec (rounds length)

  -- `SequenceCodec(len_header_codec, item_codec)`
  unfoldable pub sequence_codec : Codec ℤ → Codec T → Codec (List T)
  unfolding sequence_encode sequence_decode
  sequence_codec len_header_codec item_codec = record {
    encode = sequence_encode len_header_codec item_codec;
    decode = sequence_decode len_header_codec item_codec;
  }

module _ {K V : Type 0} where
  unfoldable pub encode_entries : Codec K → Codec V → Dict K V → Exec Bytes (Unit {0})
  encode_entries key_codec value_codec [] = pure tt
  encode_entries key_codec value_codec ((key, value) ∷ entries) = do
    key_codec.encode key
    value_codec.encode value
    encode_entries key_codec value_codec entries

  -- The loop of `decode`, over the dict built so far.
  unfoldable pub decode_entries :
      Discrete K → Codec K → Codec V → ℕ → Dict K V → Exec Bytes (Dict K V)
  decode_entries dec key_codec value_codec zero result = pure result
  decode_entries dec key_codec value_codec (suc n) result = do
    key ← key_codec.decode
    value ← value_codec.decode
    decode_entries dec key_codec value_codec n (set dec key value result)

  unfoldable pub dict_encode : Codec ℤ → Codec K → Codec V → Dict K V → Exec Bytes (Unit {0})
  unfolding encode_entries
  dict_encode len_header_codec key_codec value_codec dict = do
    len_header_codec.encode (pos (length dict))
    encode_entries key_codec value_codec dict

  unfoldable pub dict_decode : Discrete K → Codec ℤ → Codec K → Codec V → Exec Bytes (Dict K V)
  unfolding decode_entries
  dict_decode dec len_header_codec key_codec value_codec = do
    length ← len_header_codec.decode
    decode_entries dec key_codec value_codec (rounds length) []

  -- `DictCodec(len_header_codec, key_codec, value_codec)`
  unfoldable pub dict_codec : Discrete K → Codec ℤ → Codec K → Codec V → Codec (Dict K V)
  unfolding dict_encode dict_decode
  dict_codec dec len_header_codec key_codec value_codec = record {
    encode = dict_encode len_header_codec key_codec value_codec;
    decode = dict_decode dec len_header_codec key_codec value_codec;
  }
