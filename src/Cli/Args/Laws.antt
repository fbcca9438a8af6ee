-- ===== src/Cli/Args/Laws.antt =====
-- Arguments that are written out are parsed back, positional ones before keyword ones.
use rosy.Base.{
  ℕ, ◌≡◌, refl, sym, ap, ◌∙◌, Bool, true, false, none, some, List, [], ◌∷◌, ◌++◌, map, All, ◌==◌,
  append_assoc, append-nil,
}
use rosy.Base.Text.{Text, Text-discrete}
use rosy.Base.Dict.{set}
use rosy.Base.Exec.{ok, err, value_error}
use rosy.Message.{Args, Kwargs}
use rosy.Cli.Args.{
  span, line, starts_name, key_match, Python, value_from_str, key_value_from_str, add_arg,
  parse_from, parse_args_and_kwargs,
}

span-append :
    (p : ℕ → Bool) (w : Text) (c : ℕ) (t : Text)
    → All (λ x. p x ≡ true) w
    → p c ≡ false
    → span p (w ++ c ∷ t) ≡ (w, c ∷ t)
unfolding span
span-append p [] c t h k = rw k refl
span-append p (x ∷ w) c t h k = rw (h.0, span-append p w c t h.1 k) refl

-- The text has no line feed.
abbrev pub OneLine : Text → Type 0
OneLine t = All (λ c. (c == 0x0a) ≡ false) t

line-OneLine : (t : Text) → OneLine t → line t ≡ some t
unfolding line
line-OneLine [] h = refl
line-OneLine (c ∷ t) h = rw (h.0, line-OneLine t h.1) refl

module _ {Data : Type 0} (python : Python Data) where
  -- A name, as `[A-Za-z_][\w_]*` has it.
  abbrev pub IsName : Text → Type 0
  IsName [] = ⊥
  IsName (c ∷ w) = (starts_name c ≡ true) × All (λ x. python.is_word x ≡ true) w

  -- A positional argument: its text, which is no `name=value`, and the value that it has.
  abbrev pub IsPositional : Text × Data → Type 0
  IsPositional (text, value) =
      (key_match python.is_word text ≡ none) × (value_from_str python text ≡ ok value)

  -- A keyword argument: its name, the text of its value, and the value.
  abbrev pub Keyword : Type 0
  Keyword = Text × Text × Data

  abbrev pub IsKeyword : Keyword → Type 0
  IsKeyword (key, text, value) = IsName key × OneLine text × (value_from_str python text ≡ ok value)

  abbrev pub rendered : Keyword → Text
  rendered (key, text, value) = key ++ b'=' ∷ text

  -- The dict of the keyword arguments: a later one takes the place of one with its name.
  abbrev pub dict_of : Kwargs Data → List Keyword → Kwargs Data
  dict_of kwargs [] = kwargs
  dict_of kwargs ((key, text, value) ∷ rest) = dict_of (set Text-discrete key value kwargs) rest

  positional_lem :
      (p : Text × Data) → IsPositional p → key_value_from_str python p.0 ≡ ok (none, p.1)
  unfolding key_value_from_str
  positional_lem p h = rw (h.0, h.1, key_value_from_str) refl

  module _ (no_equals : python.is_word b'=' ≡ false) where
    key_match-rendered :
        (key text : Text)
        → IsName key
        → OneLine text
        → key_match python.is_word (key ++ b'=' ∷ text) ≡ some (key, text)
    unfolding key_match
    key_match-rendered [] text n o = absurd n
    key_match-rendered (c ∷ w) text n o =
        rw (span-append python.is_word w b'=' text n.1 no_equals, n.0, line-OneLine text o) refl

    keyword_lem :
        (k : Keyword) → IsKeyword k → key_value_from_str python (rendered k) ≡ ok (some k.0, k.2)
    unfolding key_value_from_str
    keyword_lem (key, text, value) h =
        rw (key_match-rendered key text h.0 h.1, h.2, key_value_from_str) refl

    keywords_lem :
        (ks : List Keyword) (args : Args Data) (kwargs : Kwargs Data)
        → All IsKeyword ks
        → parse_from python (map rendered ks) (args, kwargs) ≡ ok (args, dict_of kwargs ks)
    unfolding parse_from add_arg
    keywords_lem [] args kwargs h = refl
    keywords_lem (k ∷ ks) args kwargs h =
        rw (keyword_lem k h.0, parse_from, add_arg)
          (keywords_lem ks args (set Text-discrete k.0 k.2 kwargs) h.1)

    positionals_lem :
        (ps : List (Text × Data)) (rest : List Text) (args : Args Data)
        → All IsPositional ps
        → parse_from python (map (λ p. p.0) ps ++ rest) (args, [])
          ≡ parse_from python rest (args ++ map (λ p. p.1) ps, [])
    unfolding parse_from add_arg
    positionals_lem [] rest args h =
        ap (λ a. parse_from python rest (a, [])) (sym (append-nil args))
    positionals_lem (p ∷ ps) rest args h =
        rw (positional_lem p h.0, parse_from, add_arg)
          (positionals_lem ps rest (args ++ p.1 ∷ []) h.1
            ∙ ap (λ a. parse_from python rest (a, []))
                (append_assoc args (p.1 ∷ []) (map (λ q. q.1) ps)))

    -- The texts of positional arguments, and behind them those of keyword arguments, each
    -- `name=value` on one line, are parsed to their values in order and to the dict of the keyword
    -- arguments, where `=` is no word character.
    pub parse_args_and_kwargs-rendered :
        (ps : List (Text × Data)) (ks : List Keyword)
        → All IsPositional ps
        → All IsKeyword ks
        → parse_args_and_kwargs python (map (λ p. p.0) ps ++ map rendered ks)
          ≡ ok (map (λ p. p.1) ps, dict_of [] ks)
    unfolding parse_args_and_kwargs
    parse_args_and_kwargs-rendered ps ks h k =
        positionals_lem ps (map rendered ks) [] h ∙ keywords_lem ks (map (λ p. p.1) ps) [] k

    -- A positional argument behind keyword arguments raises a `ValueError`, whatever follows it.
    pub positional_after_keyword :
        (ps : List (Text × Data)) (k : Keyword) (p : Text × Data) (rest : List Text)
        → All IsPositional ps
        → IsKeyword k
        → IsPositional p
        → parse_args_and_kwargs python (map (λ q. q.0) ps ++ rendered k ∷ p.0 ∷ rest)
          ≡ err value_error
    unfolding parse_args_and_kwargs parse_from add_arg
    positional_after_keyword ps k p rest h hk hp =
        positionals_lem ps (rendered k ∷ p.0 ∷ rest) [] h
        ∙ rw (keyword_lem k hk, positional_lem p hp, parse_from, add_arg) refl
