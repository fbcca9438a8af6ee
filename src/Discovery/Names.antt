-- ===== src/Discovery/Names.antt =====
-- The names that src/rosy/discovery/zeroconf.py registers a node under.
use rosy.Base.{
  zero, suc, take, length-append, drop_eq, holds-yes, holds-no, subst, ℕ, Bool, true, [], ◌∷◌, ◌++◌,
  ◌-◌, length, drop, holds, if◌then◌else◌, leb, ◌&&◌, ◌≡◌, refl, arith, Bool-cases, inl, inr,
  append_assoc, sym, ◌∙◌, ap, drop-length-append,
}
use rosy.Base.Text.{Text, Text-discrete}

-- `str.endswith`
abbrev pub ends_with : Text → Text → Bool
ends_with suffix t =
    leb (length suffix) (length t)
    && holds (Text-discrete suffix (drop (length t - length suffix) t))

abbrev pub local : Text
local = b'.' ∷ b'l' ∷ b'o' ∷ b'c' ∷ b'a' ∷ b'l' ∷ []

abbrev pub local_dot : Text
local_dot = local ++ b'.' ∷ []

-- `get_mdns_fqdn`, of the name that `socket.getfqdn()` gives.
unfoldable pub get_mdns_fqdn : Text → Text
get_mdns_fqdn fqdn =
    if ends_with local_dot fqdn
    then fqdn
    else if ends_with local fqdn
    then fqdn ++ b'.' ∷ []
    else if ends_with (b'.' ∷ []) fqdn
    then fqdn ++ b'l' ∷ b'o' ∷ b'c' ∷ b'a' ∷ b'l' ∷ b'.' ∷ []
    else fqdn ++ local_dot

-- `build_service_type`; `hash_domain_id` is the hash of hashlib as hexadecimal digits.
unfoldable pub build_service_type : (Text → Text) → Text → Text
build_service_type hash_domain_id domain_id =
    (b'_' ∷ b'r' ∷ b'o' ∷ b's' ∷ b'y' ∷ b'-' ∷ [])
    ++ hash_domain_id domain_id
    ++ (b'.' ∷ b'_' ∷ b't' ∷ b'c' ∷ b'p' ∷ b'.' ∷ b'l' ∷ b'o' ∷ b'c' ∷ b'a' ∷ b'l' ∷ b'.' ∷ [])

ends_with-append : (p s : Text) → ends_with s (p ++ s) ≡ true
ends_with-append p s =
    let long = length-append p s in
    let n : length (p ++ s) - length s ≡ length p = omega arith in
    rw
      (
        drop_eq (length (p ++ s) - length s) (length p) (p ++ s) n,
        drop-length-append p s,
        holds-yes (Text-discrete s s) refl,
      )
      (ground arith)

take-drop : (n : ℕ) (xs : Text) → take n xs ++ drop n xs ≡ xs
take-drop zero xs = refl
take-drop (suc n) [] = refl
take-drop (suc n) (x ∷ xs) = ap (λ ys. x ∷ ys) (take-drop n xs)

ends_with_split : (s t : Text) → ends_with s t ≡ true → take (length t - length s) t ++ s ≡ t
ends_with_split s t h =
    let n = length t - length s in
    elim (Text-discrete s (drop n t)) [
      | yes p ↦ ap (λ y. take n t ++ y) p ∙ take-drop n t
      | no p ↦ let k = holds-no (Text-discrete s (drop n t)) p in ground (arith, h, k)
    ]

-- What is put behind a suffix makes a longer suffix.
longer_suffix : (s more t : Text) → ends_with s t ≡ true → ends_with (s ++ more) (t ++ more) ≡ true
longer_suffix s more t h =
    let p = take (length t - length s) t in
    subst (λ u. ends_with (s ++ more) u ≡ true)
      (sym (append_assoc p s more) ∙ ap (λ u. u ++ more) (ends_with_split s t h))
      (ends_with-append p (s ++ more))

-- The name of the machine that is registered ends with ".local.", whatever name the system gives.
pub ends_with-get_mdns_fqdn : (fqdn : Text) → ends_with local_dot (get_mdns_fqdn fqdn) ≡ true
unfolding get_mdns_fqdn
ends_with-get_mdns_fqdn fqdn = elim (Bool-cases (ends_with local_dot fqdn)) [
  | inl e ↦ rw (e) e
  | inr e ↦ elim (Bool-cases (ends_with local fqdn)) [
    | inl f ↦ rw (e, f) (longer_suffix local (b'.' ∷ []) fqdn f)
    | inr f ↦ elim (Bool-cases (ends_with (b'.' ∷ []) fqdn)) [
      | inl g ↦
          rw (e, f, g)
            (longer_suffix (b'.' ∷ []) (b'l' ∷ b'o' ∷ b'c' ∷ b'a' ∷ b'l' ∷ b'.' ∷ []) fqdn g)
      | inr g ↦ rw (e, f, g) (ends_with-append fqdn local_dot)
    ]
  ]
]
