-- ===== src/Cli/Tokenizer.antt =====
-- marie-cli/src/repl/tokenizer.rs: a text is the list of its code points.
pub mod Words
use marie.Base.{
  ℕ, ◌+◌, ◌-◌, Bool, true, false, ◌&&◌, ◌||◌, leb, nat_beq, if◌then◌else◌, List, [], ◌∷◌, ◌++◌,
  Result, ok, err,
}

abbrev pub Text : Type 0
Text = List ℕ

-- repl/error.rs, without the text of a wrong use
pub data CliError : Type 0 where
  usage : CliError

abbrev pub quote : ℕ
quote = 34

abbrev pub opening : ℕ
opening = 91

abbrev pub backslash : ℕ
backslash = 92

abbrev pub closing : ℕ
closing = 93

abbrev pub space : ℕ
space = 32

-- `char::is_whitespace`
unfoldable pub is_whitespace : ℕ → Bool
is_whitespace c =
    leb 9 c && leb c 13
    || nat_beq c 32
    || nat_beq c 133
    || nat_beq c 160
    || nat_beq c 5760
    || leb 8192 c && leb c 8202
    || nat_beq c 8232
    || nat_beq c 8233
    || nat_beq c 8239
    || nat_beq c 8287
    || nat_beq c 12288

pub data Mode : Type 0 where
  normal : Mode
  quoted : Mode
  bracketed : ℕ → Mode

-- The variables of the loop.
pub record State : Type 0 where
  pub tokens : List Text
  pub current : Text
  pub has_current : Bool
  pub mode : Mode

unfoldable pub push : State → ℕ → State
push s c = record s { current = s.current ++ c ∷ [] }

unfoldable pub start_token : State → ℕ → Mode → State
start_token s c mode = record s { current = s.current ++ c ∷ []; has_current = true; mode = mode }

unfoldable pub end_token : State → State
end_token s =
    if s.has_current
    then record s { tokens = s.tokens ++ s.current ∷ []; current = []; has_current = false }
    else s

-- `current.push(c); mode = ..`
unfoldable pub push_in : State → ℕ → Mode → State
push_in s c mode = record s { current = s.current ++ c ∷ []; mode = mode }

-- The body of the loop, but for an escaped quote.
unfoldable pub step : Mode → State → ℕ → State
step Mode.normal s c =
    if is_whitespace c
    then end_token s
    else if nat_beq c quote
    then start_token s c Mode.quoted
    else if nat_beq c opening
    then start_token s c (Mode.bracketed 1)
    else start_token s c s.mode
step Mode.quoted s c = if nat_beq c quote then push_in s c Mode.normal else push s c
step (Mode.bracketed depth) s c =
    if nat_beq c opening
    then push_in s c (Mode.bracketed (depth + 1))
    else if nat_beq c closing
    then push_in s c (if leb depth 1 then Mode.normal else Mode.bracketed (depth - 1))
    else push s c

-- `c == '\\' && chars.peek() == Some(&'"')`
unfoldable pub escapes : Mode → ℕ → ℕ → Bool
escapes Mode.quoted c next = nat_beq c backslash && nat_beq next quote
escapes Mode.normal c next = false
escapes (Mode.bracketed depth) c next = false

unfoldable pub scan : State → Text → State
scan s [] = s
scan s (c ∷ []) = step s.mode s c
scan s (c ∷ next ∷ chars) = elim (escapes s.mode c next) [
  | true ↦ scan (push s quote) chars
  | false ↦ scan (step s.mode s c) (next ∷ chars)
]

unfoldable pub finish : Mode → State → Result (List Text) CliError
finish Mode.quoted s = err CliError.usage
finish (Mode.bracketed depth) s = err CliError.usage
finish Mode.normal s = ok (end_token s).tokens

unfoldable pub tokenize : Text → Result (List Text) CliError
tokenize line =
    let s =
      scan (record { tokens = []; current = []; has_current = false; mode = Mode.normal }) line in
    finish s.mode s
