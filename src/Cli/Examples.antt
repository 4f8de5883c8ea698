-- ===== src/Cli/Examples.antt =====
-- The command `go p="a \""` and the theorems at it.
use marie.Base.{ℕ, ◌≡◌, ◌≢◌, refl, arith, All, some, none, ok, [], ◌∷◌}
use marie.Cli.Tokenizer.{Text, is_whitespace, tokenize}
use marie.Cli.Tokenizer.Words.{Word, IsWord, line, token, tokenize_words}
use marie.Cli.Args.{CommandArgs, parse_command_args, flag_text}
use marie.Cli.Args.Flags.{Flag, text_of, typed_command}

abbrev go : Word
go = record { first = 103; plain = 111 ∷ []; text = none }

-- The text has a space and a quote.
abbrev text : Text
text = 97 ∷ 32 ∷ 34 ∷ []

abbrev flag : Word
flag = record { first = 112; plain = 61 ∷ []; text = some text }

no_escape : All (λ c. c ≢ 92) text
no_escape = (
  λ e. absurd (omega (arith, e)),
  (λ e. absurd (omega (arith, e)), (λ e. absurd (omega (arith, e)), tt)),
)

flag-IsWord : IsWord flag
unfolding is_whitespace
flag-IsWord = (
  (refl, λ e. absurd (omega (arith, e)), λ e. absurd (omega (arith, e))),
  ((refl, λ e. absurd (omega (arith, e)), λ e. absurd (omega (arith, e))), tt),
  no_escape,
)

go-IsWord : IsWord go
unfolding is_whitespace
go-IsWord = (
  (refl, λ e. absurd (omega (arith, e)), λ e. absurd (omega (arith, e))),
  ((refl, λ e. absurd (omega (arith, e)), λ e. absurd (omega (arith, e))), tt),
  tt,
)

tokenize_words_example : tokenize (line (go ∷ flag ∷ [])) ≡ ok (token go ∷ token flag ∷ [])
tokenize_words_example = tokenize_words (go ∷ flag ∷ []) (go-IsWord, (flag-IsWord, tt))

key : All {A = ℕ} (λ d. d ≢ 61) (112 ∷ [])
key = (λ e. absurd (omega (arith, e)), tt)

abbrev p_flag : Flag
p_flag = record { first = 112; rest = []; text = text }

typed_command_example :
    (args : CommandArgs) × (tokenize (line (go ∷ flag ∷ [])) ≡ ok (token go ∷ token flag ∷ []))
    × (parse_command_args (token go ∷ token flag ∷ []) 1 ≡ ok args)
    × (args.positionals ≡ token go ∷ [])
    × ((key : Text) → flag_text args key ≡ text_of (p_flag ∷ []) key)
typed_command_example =
    typed_command (go ∷ []) (p_flag ∷ []) (go-IsWord, tt) ((flag-IsWord, key), tt) (tt, tt)
