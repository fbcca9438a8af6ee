-- ===== src/Codec/Utf8.antt =====
-- `str.encode("utf-8")` and `bytes.decode("utf-8")` of Python, strict.
use rosy.Base.{
  ℕ, zero, suc, ◌+◌, ◌-◌, ◌*◌, ◌/◌, ◌%◌, ◌<◌, ◌≤◌, ◌≡◌, refl, ap, ◌∙◌, Bool, false, ◌&&◌, not,
  Option, none, some, [], ◌∷◌, ◌++◌, ltb, leb, if◌then◌else◌, arith, Bool-cases, inl, inr,
}
use rosy.Base.Text.{Text}
use rosy.Base.Exec.{Result, ok, err, unicode_error}
use rosy.Stream.{Bytes}

-- 0xD800 to 0xDFFF
abbrev pub is_surrogate : ℕ → Bool
is_surrogate c = leb 0xD800 c && ltb c 0xE000

-- The bytes of one code point; a surrogate has none.
unfoldable pub char_bytes : ℕ → Option Bytes
char_bytes c =
    if ltb c 0x80
    then some (c ∷ [])
    else if ltb c 0x800
    then some ((0xC0 + c / 64) ∷ (0x80 + c % 64) ∷ [])
    else if is_surrogate c
    then none
    else if ltb c 0x10000
    then some ((0xE0 + c / 4096) ∷ (0x80 + c / 64 % 64) ∷ (0x80 + c % 64) ∷ [])
    else if ltb c 0x110000
    then some
        ((0xF0 + c / 262144) ∷ (0x80 + c / 4096 % 64) ∷ (0x80 + c / 64 % 64) ∷ (0x80 + c % 64) ∷ [])
    else none

abbrev joined : Option Bytes → Result Bytes → Result Bytes
joined none r = err unicode_error
joined (some bs) (ok rest) = ok (bs ++ rest)
joined (some bs) (err e) = err e

unfoldable pub encode_text : Text → Result Bytes
unfolding char_bytes
encode_text [] = ok []
encode_text (c ∷ s) = joined (char_bytes c) (encode_text s)

-- A decoder between two bytes: how many continuation bytes are due, the bits so far, and the least
-- code point that needs so many bytes.
pub record Partial : Type 0 where
  pub due : ℕ
  pub code : ℕ
  pub least : ℕ

abbrev pub start : Partial
start = record { due = 0; code = 0; least = 0 }

-- The code point, if the last byte is in and it is no overlong form, surrogate or overflow.
abbrev finish : ℕ → Partial → Option (Text × Partial)
finish zero p =
    if leb p.least p.code && not (is_surrogate p.code) && ltb p.code 0x110000
    then some (p.code ∷ [], start)
    else none
finish (suc n) p = some ([], record p { due = suc n })

unfoldable pub utf8_step : ℕ → Partial → ℕ → Option (Text × Partial)
utf8_step zero p b =
    if ltb b 0x80
    then some (b ∷ [], start)
    else if ltb b 0xC0
    then none
    else if ltb b 0xE0
    then some ([], record { due = 1; code = b - 0xC0; least = 0x80 })
    else if ltb b 0xF0
    then some ([], record { due = 2; code = b - 0xE0; least = 0x800 })
    else if ltb b 0xF8
    then some ([], record { due = 3; code = b - 0xF0; least = 0x10000 })
    else none
utf8_step (suc n) p b =
    if leb 0x80 b && ltb b 0xC0
    then finish n (record p { code = p.code * 64 + (b - 0x80) })
    else none

abbrev pub prepend : Text → Result Text → Result Text
prepend t (ok s) = ok (t ++ s)
prepend t (err e) = err e

pub decode_from : Partial → Bytes → Result Text
unfolding utf8_step
decode_from p [] = if leb p.due 0 then ok [] else err unicode_error
decode_from p (b ∷ bs) = elim (utf8_step p.due p b) [
  | none ↦ err unicode_error
  | some (t, q) ↦ prepend t (decode_from q bs)
]

unfoldable pub decode_text : Bytes → Result Text
unfolding decode_from
decode_text bs = decode_from start bs

module _ (p : Partial) (b : ℕ) (bs : Bytes) {t : Text} {q : Partial} where
  decode_from-cons :
      utf8_step p.due p b ≡ some (t, q) → decode_from p (b ∷ bs) ≡ prepend t (decode_from q bs)
  unfolding decode_from
  decode_from-cons h = rw (h, decode_from)

prepend-nil : (r : Result Text) → prepend [] r ≡ r
prepend-nil (ok s) = refl
prepend-nil (err e) = refl

silent :
    (p q : Partial) (b : ℕ) (bs : Bytes) {r : Result Text}
    → utf8_step p.due p b ≡ some ([], q)
    → decode_from q bs ≡ r
    → decode_from p (b ∷ bs) ≡ r
silent p q b bs h k = decode_from-cons p b bs h ∙ prepend-nil (decode_from q bs) ∙ k

abbrev partial : ℕ → ℕ → ℕ → Partial
partial due code least = record { due = due; code = code; least = least }

module _ (c : ℕ) (rest : Bytes) where
  abbrev Decodes : Bytes → Type 0
  Decodes bs = decode_from start (bs ++ rest) ≡ prepend (c ∷ []) (decode_from start rest)

  last :
      (p : Partial) (b : ℕ)
      → utf8_step p.due p b ≡ some (c ∷ [], start)
      → decode_from p (b ∷ rest) ≡ prepend (c ∷ []) (decode_from start rest)
  last p b h = decode_from-cons p b rest h

  one_byte : c < 0x80 → Decodes (c ∷ [])
  unfolding utf8_step
  one_byte h = last start c (ground arith)

  two_bytes : 0x80 ≤ c → c < 0x800 → Decodes ((0xC0 + c / 64) ∷ (0x80 + c % 64) ∷ [])
  unfolding utf8_step
  two_bytes l h =
      silent start (partial 1 (c / 64) 0x80) (0xC0 + c / 64) _ (ground arith)
        (last (partial 1 (c / 64) 0x80) (0x80 + c % 64) (ground arith))

  three_bytes :
      0x800 ≤ c
      → c < 0x10000
      → is_surrogate c ≡ false
      → Decodes ((0xE0 + c / 4096) ∷ (0x80 + c / 64 % 64) ∷ (0x80 + c % 64) ∷ [])
  unfolding utf8_step
  three_bytes l h s = silent start (partial 2 (c / 4096) 0x800) (0xE0 + c / 4096) _ (ground arith) (
      silent (partial 2 (c / 4096) 0x800) (partial 1 (c / 64) 0x800) (0x80 + c / 64 % 64) _
        (ground arith) (last (partial 1 (c / 64) 0x800) (0x80 + c % 64) (ground arith)))

  four_bytes :
      0x10000 ≤ c
      → c < 0x110000
      → Decodes (
          (0xF0 + c / 262144)
          ∷ (0x80 + c / 4096 % 64)
          ∷ (0x80 + c / 64 % 64)
          ∷ (0x80 + c % 64)
          ∷ [])
  unfolding utf8_step
  four_bytes l h =
      silent start (partial 3 (c / 262144) 0x10000) (0xF0 + c / 262144) _ (ground arith) (
        silent (partial 3 (c / 262144) 0x10000) (partial 2 (c / 4096) 0x10000)
          (0x80 + c / 4096 % 64) _ (ground arith)
          (silent (partial 2 (c / 4096) 0x10000) (partial 1 (c / 64) 0x10000) (0x80 + c / 64 % 64) _
            (ground arith) (last (partial 1 (c / 64) 0x10000) (0x80 + c % 64) (ground arith))))

  char_Decodes : {bs : Bytes} → char_bytes c ≡ some bs → Decodes bs
  unfolding char_bytes
  char_Decodes {bs} h = elim (Bool-cases (ltb c 0x80)) [
    | inl p ↦ let e : bs ≡ c ∷ [] = ground arith in rw e (one_byte (ground arith))
    | inr p ↦ elim (Bool-cases (ltb c 0x800)) [
      | inl q ↦
          let e : bs ≡ (0xC0 + c / 64) ∷ (0x80 + c % 64) ∷ [] = ground arith in
          rw e (two_bytes (ground arith) (ground arith))
      | inr q ↦ elim (Bool-cases (is_surrogate c)) [
        | inl s ↦ absurd (ground arith)
        | inr s ↦ elim (Bool-cases (ltb c 0x10000)) [
          | inl t ↦
              let e : bs ≡ (0xE0 + c / 4096) ∷ (0x80 + c / 64 % 64) ∷ (0x80 + c % 64) ∷ [] =
                ground arith in
              rw e (three_bytes (ground arith) (ground arith) s)
          | inr t ↦ elim (Bool-cases (ltb c 0x110000)) [
            | inl u ↦
                let e : bs
                    ≡ (0xF0 + c / 262144)
                      ∷ (0x80 + c / 4096 % 64)
                      ∷ (0x80 + c / 64 % 64)
                      ∷ (0x80 + c % 64)
                      ∷ [] =
                  ground arith in
                rw e (four_bytes (ground arith) (ground arith))
            | inr u ↦ absurd (ground arith)
          ]
        ]
      ]
    ]
  ]

joined-ok :
    (o : Option Bytes) (r : Result Bytes) {bs : Bytes}
    → joined o r ≡ ok bs
    → (b₁ : Bytes) × (b₂ : Bytes) × (o ≡ some b₁) × (r ≡ ok b₂) × (bs ≡ b₁ ++ b₂)
joined-ok none r h = cc
joined-ok (some b₁) (ok b₂) h = (b₁, b₂, refl, refl, ground arith)
joined-ok (some b₁) (err e) h = cc

-- A text that has an encoding is decoded from it.
pub decode_text-encode_text :
    (s : Text) (bs : Bytes) → encode_text s ≡ ok bs → decode_text bs ≡ ok s
unfolding encode_text decode_text
decode_text-encode_text [] bs h = let e : bs ≡ [] = cc in rw e refl
decode_text-encode_text (c ∷ s) bs h =
    let (b₁, b₂, head, tail, e) = joined-ok (char_bytes c) (encode_text s) h in
    rw (e, char_Decodes c b₂ head) (ap (prepend (c ∷ [])) (decode_text-encode_text s b₂ tail))
