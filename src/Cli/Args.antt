-- ===== src/Cli/Args.antt =====
-- marie-cli/src/repl/args.rs and completer.rs: the arguments of a command. The values of channels,
-- which the parsers of numbers and serde_json read, are left out.
pub mod Flags
use marie.Base.{
  ◌≡◌, ◌↔◌, arith, nat_beq_iff, PartialEq, ℕ, ◌+◌, ◌-◌, Bool, true, false, not, ◌&&◌, leb, ltb,
  nat_beq, if◌then◌else◌, Option, none, some, List, [], ◌∷◌, ◌++◌, length, get_elem?, take, drop,
  filter, map, last?, Result, ok, err, nat_eq, ◌==◌,
}
use marie.Base.HashMap
use marie.Base.HashMap.{HashMap}
use marie.Session.Channel.{Reducer}
use marie.Cli.Tokenizer.{Text, CliError, quote, opening, backslash, closing, is_whitespace}

unfoldable pub text_beq : Text → Text → Bool
text_beq [] [] = true
text_beq [] (d ∷ ds) = false
text_beq (c ∷ cs) [] = false
text_beq (c ∷ cs) (d ∷ ds) = let rest = text_beq cs ds in nat_beq c d && rest

pub text_beq_iff : (a b : Text) → (text_beq a b ≡ true) ↔ (a ≡ b)
unfolding text_beq
text_beq_iff [] [] = ground arith
text_beq_iff [] (d ∷ ds) = ground arith
text_beq_iff (c ∷ cs) [] = ground arith
text_beq_iff (c ∷ cs) (d ∷ ds) = ground (arith, text_beq_iff cs ds, nat_beq_iff c d)

instance abbrev pub text_eq : PartialEq Text
text_eq = record { eq = text_beq; eq_iff = text_beq_iff }

pub record CommandArgs : Type 0 where
  pub positionals : List Text
  pub flags : HashMap Text Text

-- `str::trim_start`
unfoldable pub trim_start : Text → Text
trim_start [] = []
trim_start (c ∷ text) = let rest = trim_start text in if is_whitespace c then rest else c ∷ text

unfoldable pub trim_end : Text → Text
trim_end [] = []
trim_end (c ∷ text) = elim (trim_end text) [
  | [] ↦ if is_whitespace c then [] else c ∷ []
  | d ∷ rest ↦ c ∷ d ∷ rest
]

unfoldable pub trim : Text → Text
trim text = trim_end (trim_start text)

-- `s.replace("\\\"", "\"")`
unfoldable pub unescape : Text → Text
unescape [] = []
unescape (c ∷ []) = c ∷ []
unescape (c ∷ d ∷ text) = elim (nat_beq c backslash && nat_beq d quote) [
  | true ↦ quote ∷ unescape text
  | false ↦ c ∷ unescape (d ∷ text)
]

unfoldable pub is_quote : Option ℕ → Bool
is_quote none = false
is_quote (some c) = nat_beq c quote

-- `&s[1..s.len() - 1]`
unfoldable pub inside : Text → Text
inside s = take (length s - 2) (drop 1 s)

unfoldable pub unquote : Text → Text
unquote raw =
    let s = trim raw in
    if leb 2 (length s) && is_quote (get_elem? s 0) && is_quote (last? s)
    then unescape (inside s)
    else s

-- `token.split_once('=')`
unfoldable pub split_once : Text → Option (Text × Text)
split_once [] = none
split_once (c ∷ text) =
    if nat_beq c 61
    then some ([], text)
    else elim (split_once text) [ some (key, value) ↦ some (c ∷ key, value) | none ↦ none ]

-- The loop over the tokens that follow the positionals.
unfoldable pub read_flags : List Text → HashMap Text Text → Result (HashMap Text Text) CliError
read_flags [] flags = ok flags
read_flags (token ∷ tokens) flags = elim (split_once token) [
  | none ↦ err CliError.usage
  | some (key, value) ↦ elim (HashMap.contains_key flags key) [
    | true ↦ err CliError.usage
    | false ↦ read_flags tokens (HashMap.insert flags key value)
  ]
]

unfoldable pub parse_command_args : List Text → ℕ → Result CommandArgs CliError
parse_command_args tokens n_positional =
    if ltb (length tokens) n_positional
    then err CliError.usage
    else elim (read_flags (drop n_positional tokens) HashMap.empty) [
      | err e ↦ err e
      | ok flags ↦
          ok (record { positionals = map unquote (take n_positional tokens); flags = flags })
    ]

unfoldable pub positional : CommandArgs → ℕ → Result Text CliError
positional args i = elim (get_elem? args.positionals i) [
  | some s ↦ ok s
  | none ↦ err CliError.usage
]

unfoldable pub flag_str : CommandArgs → Text → Option Text
flag_str args key = HashMap.get args.flags key

unfoldable pub flag_text : CommandArgs → Text → Option Text
flag_text args key = elim (HashMap.get args.flags key) [ some v ↦ some (unquote v) | none ↦ none ]

-- The texts "true", "false", "append", "lww" and "max".
abbrev true_text : Text
true_text = 116 ∷ 114 ∷ 117 ∷ 101 ∷ []

abbrev false_text : Text
false_text = 102 ∷ 97 ∷ 108 ∷ 115 ∷ 101 ∷ []

abbrev append_text : Text
append_text = 97 ∷ 112 ∷ 112 ∷ 101 ∷ 110 ∷ 100 ∷ []

abbrev lww_text : Text
lww_text = 108 ∷ 119 ∷ 119 ∷ []

abbrev max_text : Text
max_text = 109 ∷ 97 ∷ 120 ∷ []

unfoldable pub flag_bool_opt : CommandArgs → Text → Result (Option Bool) CliError
flag_bool_opt args key = elim (flag_str args key) [
  | none ↦ ok none
  | some s ↦
      if s == true_text
      then ok (some true)
      else if s == false_text
      then ok (some false)
      else err CliError.usage
]

unfoldable pub flag_bool : CommandArgs → Text → Bool → Result Bool CliError
flag_bool args key default = elim (flag_bool_opt args key) [
  | err e ↦ err e
  | ok o ↦ elim o [ some b ↦ ok b | none ↦ ok default ]
]

unfoldable pub flag_reducer : CommandArgs → Text → Result (Option Reducer) CliError
flag_reducer args key = elim (flag_str args key) [
  | none ↦ ok none
  | some s ↦
      if s == append_text
      then ok (some Reducer.append)
      else if s == lww_text
      then ok (some Reducer.last_write_wins)
      else if s == max_text
      then ok (some Reducer.max)
      else err CliError.usage
]

-- `s.split(',')`
unfoldable pub split_commas : Text → Text → List Text
split_commas part [] = part ∷ []
split_commas part (c ∷ text) = elim (nat_beq c 44) [
  | true ↦ part ∷ split_commas [] text
  | false ↦ split_commas (part ++ c ∷ []) text
]

unfoldable pub is_empty : Text → Bool
is_empty [] = true
is_empty (c ∷ text) = false

unfoldable pub flag_csv : CommandArgs → Text → List Text
flag_csv args key = elim (flag_str args key) [
  | none ↦ []
  | some s ↦ filter (λ v. not (is_empty v)) (map trim (split_commas [] s))
]

-- `cmd.name.starts_with(input)` and the rest of the name
unfoldable pub rest_after : Text → Text → Option Text
rest_after [] name = some name
rest_after (c ∷ input) [] = none
rest_after (c ∷ input) (d ∷ name) =
    let rest = rest_after input name in if nat_beq c d then rest else none

-- completer.rs: the names with their missing ends, for a cursor at the end of the input.
unfoldable pub complete : List Text → Text → List (Text × Text)
complete [] input = []
complete (name ∷ names) input = elim (rest_after input name) [
  | none ↦ complete names input
  | some [] ↦ complete names input
  | some (c ∷ rest) ↦ (name, c ∷ rest) ∷ complete names input
]
