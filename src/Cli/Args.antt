-- ===== src/Cli/Args.antt =====
-- src/rosy/cli/topic/send.py: the arguments of a message, from the texts of a command line.
pub mod Laws
use rosy.Base.{
  ℕ, Bool, true, false, ◌&&◌, ◌||◌, Option, none, some, List, [], ◌∷◌, ◌++◌, leb, ◌==◌,
  if◌then◌else◌,
}
use rosy.Base.Text.{Text, Text-discrete}
use rosy.Base.Dict.{Dict, set}
use rosy.Base.Exec.{Error, Result, ok, err, value_error}
use rosy.Message.{Args, Kwargs}

-- The longest prefix of characters with the property, and the rest.
unfoldable pub span : (ℕ → Bool) → Text → Text × Text
span p [] = ([], [])
span p (c ∷ t) = let (w, r) = span p t in if p c then (c ∷ w, r) else ([], c ∷ t)

-- The group of `(.*)$`: what is left of the line; a line feed may only stand at the end.
unfoldable pub line : Text → Option Text
line [] = some []
line (c ∷ t) =
    let rest : Option Text = elim (line t) [ none ↦ none | some l ↦ some (c ∷ l) ] in
    let last : Option Text = elim t [ [] ↦ some [] | _ ∷ _ ↦ none ] in
    if c == 0x0a then last else rest

-- `[A-Za-z_]`
abbrev pub starts_name : ℕ → Bool
starts_name c = (leb b'A' c && leb c b'Z') || ((leb b'a' c && leb c b'z') || (c == b'_'))

-- The value behind a key and `=`.
abbrev pub after_equals : Text → Text → Option (Text × Text)
after_equals key [] = none
after_equals key (c ∷ t) =
    let found : Option (Text × Text) = elim (line t) [ none ↦ none | some v ↦ some (key, v) ] in
    if c == b'=' then found else none

-- The groups of `^([A-Za-z_][\w_]*)=(.*)$`; `is_word` is `\w` of Python, which takes in the letters
-- of all languages, and not `=`.
unfoldable pub key_match : (ℕ → Bool) → Text → Option (Text × Text)
unfolding span line
key_match is_word [] = none
key_match is_word (c ∷ t) =
    let (w, rest) = span is_word t in if starts_name c then after_equals (c ∷ w) rest else none

-- The last `.` splits a dotted name; the group behind it has no `.`.
unfoldable pub split_name : Text → Option (Text × Text)
split_name [] = none
split_name (c ∷ t) = elim (split_name t) [
  | some (module_name, name) ↦ some (c ∷ module_name, name)
  | none ↦ if c == b'.' then some ([], t) else none
]

-- The text without a `)` at its end.
unfoldable pub without_close : Text → Option Text
without_close [] = none
without_close (c ∷ []) = if c == b')' then some [] else none
without_close (c ∷ d ∷ t) = elim (without_close (d ∷ t)) [ none ↦ none | some l ↦ some (c ∷ l) ]

abbrev pub named_call : Option (Text × Text) → Option Text → Option (Text × Text × Text)
named_call (some (m ∷ ms, n ∷ ns)) (some args) = some (m ∷ ms, n ∷ ns, args)
named_call _ _ = none

abbrev pub call_arguments : Text → Option Text
call_arguments t = elim (line t) [ none ↦ none | some l ↦ without_close l ]

abbrev pub call_of : Text → Text → Option (Text × Text × Text)
call_of dotted [] = none
call_of dotted (c ∷ t) =
    let found = named_call (split_name dotted) (call_arguments t) in
    if c == b'(' then found else none

-- The groups of `^call:([\w.]+)\.(\w+)\((.*)\)$`.
unfoldable pub call_match : (ℕ → Bool) → Text → Option (Text × Text × Text)
unfolding span line split_name without_close
call_match is_word (c ∷ a ∷ l ∷ l' ∷ colon ∷ t) =
    let (dotted, rest) = span (λ x. is_word x || (x == b'.')) t in
    if (c == b'c') && ((a == b'a') && ((l == b'l') && ((l' == b'l') && (colon == b':'))))
    then call_of dotted rest
    else none
call_match is_word _ = none

-- What Python does with a text: `literal_eval`, and the import and call of a callable.
pub record Python (Data : Type 0) : Type 0 where
  pub is_word : ℕ → Bool
  pub literal_eval : Text → Result Data
  pub import_and_call : Text → Text → Text → Result Data

module _ {Data : Type 0} (python : Python Data) where
  unfoldable pub value_from_str : Text → Result Data
  unfolding call_match
  value_from_str value = elim (call_match python.is_word value) [
    | none ↦ python.literal_eval value
    | some (module_name, callable, args) ↦ python.import_and_call module_name callable args
  ]

  abbrev pub keyed : Option Text → Result Data → Result (Option Text × Data)
  keyed key (ok value) = ok (key, value)
  keyed key (err e) = err e

  unfoldable pub key_value_from_str : Text → Result (Option Text × Data)
  key_value_from_str value = elim (key_match python.is_word value) [
    | some (key, rest) ↦ keyed (some key) (value_from_str rest)
    | none ↦ keyed none (value_from_str value)
  ]

  -- One round of the loop, over the arguments found so far.
  unfoldable pub add_arg :
      Result (Option Text × Data) → Args Data × Kwargs Data → Result (Args Data × Kwargs Data)
  add_arg (err e) found = err e
  add_arg (ok (none, value)) (args, []) = ok (args ++ value ∷ [], [])
  add_arg (ok (none, value)) (args, _ ∷ _) = err value_error
  add_arg (ok (some key, value)) (args, kwargs) = ok (args, set Text-discrete key value kwargs)

  unfoldable pub parse_from : List Text → Args Data × Kwargs Data → Result (Args Data × Kwargs Data)
  parse_from [] found = ok found
  parse_from (arg ∷ rest) found = elim (add_arg (key_value_from_str arg) found) [
    | ok found' ↦ parse_from rest found'
    | err e ↦ err e
  ]

  unfoldable pub parse_args_and_kwargs : List Text → Result (Args Data × Kwargs Data)
  parse_args_and_kwargs args = parse_from args ([], [])
