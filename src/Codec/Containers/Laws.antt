-- ===== src/Codec/Containers/Laws.antt =====
-- What the string, sequence and dict codecs carry, given codecs that carry their parts.
use rosy.Base.{
  suc, ◌≡◌, refl, ap, sym, ◌∙◌, List, [], ◌∷◌, ◌++◌, length, All, append_assoc, append-nil,
}
use rosy.Base.Int.{ℤ, pos}
use rosy.Base.Text.{Text}
use rosy.Base.Dict.{Dict, keys, Distinct, Absent}
use mathlib.Core.List.{map-append}
use rosy.Base.Dict.Laws.{Absent-append, set-Absent}
use rosy.Base.Exec.{Result, ok}
use rosy.Stream.{Bytes, write, readexactly-append}
use rosy.Codec.Interface.{Codec, Carries}
use rosy.Codec.Utf8.{encode_text, decode_text, decode_text-encode_text}
use rosy.Codec.Containers.{
  string_encode, string_rest, string_decode, string_codec, encode_items, decode_items,
  sequence_codec, sequence_encode, sequence_decode, encode_entries, decode_entries, dict_codec,
  dict_encode, dict_decode,
}

string_rest-append :
    (bs rest : Bytes) (s : Text)
    → decode_text bs ≡ ok s
    → string_rest (pos (length bs)) (bs ++ rest) ≡ (ok s, rest)
unfolding string_rest
string_rest-append [] rest s h =
    let e : ◌≡◌ {A = Result Text} (ok []) (ok s) = (unfold decode_text in h) in
    ap (λ r. (r, rest)) e
string_rest-append (b ∷ bs) rest s h =
    rw (readexactly-append (suc (length bs)) (b ∷ bs) rest refl) (ap (λ r. (r, rest)) h)

-- A text is carried if it has an encoding whose length the prefix codec carries.
pub string-Carries :
    (len : Codec ℤ) (s : Text) (bs : Bytes)
    → encode_text s ≡ ok bs
    → Carries len (pos (length bs))
    → Carries (string_codec len) s
unfolding string_codec string_encode string_decode write
string-Carries len s bs h c = record {
  wire = c.wire ++ bs;
  writes = λ w. rw (h, c.writes w) (ap (λ l. (ok tt, l)) (append_assoc w c.wire bs));
  reads = λ rest.
      rw (append_assoc, c.reads) (string_rest-append bs rest s (decode_text-encode_text s bs h));
}

module _ {T : Type 0} (item : Codec T) where
  items_carried :
      (xs : List T)
      → All (Carries item) xs
      → (wire : Bytes) × ((w : Bytes) → encode_items item xs w ≡ (ok tt, w ++ wire))
        × ((rest : Bytes) → decode_items item (length xs) (wire ++ rest) ≡ (ok xs, rest))
  unfolding encode_items decode_items
  items_carried [] h = ([], λ w. ap (λ l. (ok tt, l)) (sym (append-nil w)), λ rest. refl)
  items_carried (x ∷ xs) h =
      let c = h.0 in
      let (wire, writes, reads) = items_carried xs h.1 in
      (
        c.wire ++ wire,
        λ w. rw (c.writes w, writes) (ap (λ l. (ok tt, l)) (append_assoc w c.wire wire)),
        λ rest. rw (append_assoc, c.reads, reads) refl,
      )

  -- A sequence is carried if its length and its items are.
  pub sequence-Carries :
      (len : Codec ℤ) (xs : List T)
      → Carries len (pos (length xs))
      → All (Carries item) xs
      → Carries (sequence_codec len item) xs
  unfolding sequence_codec sequence_encode sequence_decode
  sequence-Carries len xs c h =
      let (wire, writes, reads) = items_carried xs h in
      record {
        wire = c.wire ++ wire;
        writes = λ w. rw (c.writes w, writes) (ap (λ l. (ok tt, l)) (append_assoc w c.wire wire));
        reads = λ rest. rw (append_assoc, c.reads) (reads rest);
      }

module _ {K V : Type 0} (dec : Discrete K) (key : Codec K) (value : Codec V) where
  -- None of the dict's keys is in the dict built so far.
  abbrev Fresh : Dict K V → Dict K V → Type 0
  Fresh built d = All (λ e. Absent e.0 (keys built)) d

  Fresh-grow :
      (built d : Dict K V) (k : K) (v : V)
      → Absent k (keys d)
      → Fresh built d
      → Fresh (built ++ (k, v) ∷ []) d
  Fresh-grow built [] k v h f = tt
  Fresh-grow built ((j, w) ∷ d) k v h f = (
    rw map-append (Absent-append j (keys built) (k ∷ []) f.0 ((λ e. h.0 (sym e)), tt)),
    Fresh-grow built d k v h.1 f.1,
  )

  entries_carried :
      (built d : Dict K V)
      → Distinct (keys d)
      → Fresh built d
      → All (λ e. Carries key e.0 × Carries value e.1) d
      → (wire : Bytes) × ((w : Bytes) → encode_entries key value d w ≡ (ok tt, w ++ wire))
        × ((rest : Bytes)
            → decode_entries dec key value (length d) built (wire ++ rest)
              ≡ (ok (built ++ d), rest))
  unfolding encode_entries decode_entries
  entries_carried built [] u f h = (
    [],
    λ w. ap (λ l. (ok tt, l)) (sym (append-nil w)),
    λ rest. ap (λ l. (ok l, rest)) (sym (append-nil built)),
  )
  entries_carried built ((k, v) ∷ d) u f h =
      let ck = h.0.0 in
      let cv = h.0.1 in
      let (wire, writes, reads) =
        entries_carried (built ++ (k, v) ∷ []) d u.1 (Fresh-grow built d k v u.0 f.1) h.1 in
      (
        ck.wire ++ (cv.wire ++ wire),
        λ w.
            rw (ck.writes w, cv.writes (w ++ ck.wire), writes)
              (ap (λ l. (ok tt, l))
                (append_assoc (w ++ ck.wire) cv.wire wire
                  ∙ append_assoc w ck.wire (cv.wire ++ wire))),
        λ rest.
            rw
              (
                append_assoc ck.wire (cv.wire ++ wire) rest,
                append_assoc cv.wire wire rest,
                ck.reads,
                cv.reads,
                set-Absent dec k v built f.0,
                reads,
                append_assoc built ((k, v) ∷ []) d,
              )
              refl,
      )

  -- A dict, which has each key once, is carried in its order if its length, keys and values are.
  pub dict-Carries :
      (len : Codec ℤ) (d : Dict K V)
      → Distinct (keys d)
      → Carries len (pos (length d))
      → All (λ e. Carries key e.0 × Carries value e.1) d
      → Carries (dict_codec dec len key value) d
  unfolding dict_codec dict_encode dict_decode
  dict-Carries len d u c h =
      let (wire, writes, reads) = entries_carried [] d u (fresh d) h in
      record {
        wire = c.wire ++ wire;
        writes = λ w. rw (c.writes w, writes) (ap (λ l. (ok tt, l)) (append_assoc w c.wire wire));
        reads = λ rest. rw (append_assoc, c.reads) (reads rest);
      }
    where
      fresh : (d : Dict K V) → Fresh [] d
      fresh [] = tt
      fresh (_ ∷ d) = (tt, fresh d)
