-- ===== src/Cli/Args/Flags.antt =====
-- A command from the line to its arguments (marie-cli/src/repl/tokenizer.rs and args.rs).
use marie.Base.{
  All-parts, All-imp, take, drop, ltb, if◌then◌else◌, take-length-append, ℕ, ◌≡◌, ◌≢◌, ◌+◌, refl,
  sym, ◌∙◌, ap, arith, false, nat_beq_iff, none, some, Option, List, [], ◌∷◌, ◌++◌, All, length,
  length-append, last?-append, append_assoc, ok, map,
}
use marie.Base.HashMap
use marie.Base.HashMap.{HashMap}
use marie.Cli.Tokenizer.{Text, quote, backslash, is_whitespace, tokenize}
use marie.Cli.Tokenizer.Words.{Word, IsWord, line, token, tokenize_words}
use marie.Cli.Args.{
  CommandArgs, text_eq, trim_start, trim_end, trim, unescape, is_quote, inside, unquote, split_once,
  read_flags, parse_command_args, flag_text,
}

-- A flag with a quoted text: its key is not empty.
pub record Flag : Type 0 where
  pub first : ℕ
  pub rest : Text
  pub text : Text

abbrev pub key_of : Flag → Text
key_of f = f.first ∷ f.rest

abbrev pub word_of : Flag → Word
word_of f = record { first = f.first; plain = f.rest ++ 61 ∷ []; text = some f.text }

-- It can be typed as a word, and its key has no equals sign.
abbrev pub IsFlag : Flag → Type 0
IsFlag f = IsWord (word_of f) × All (λ c. c ≢ 61) (key_of f)

abbrev pub AreDistinct : List Flag → Type 0
AreDistinct [] = Unit
AreDistinct (f ∷ flags) = All (λ g. key_of f ≢ key_of g) flags × AreDistinct flags

-- The text of the flag with a key.
abbrev pub text_of : List Flag → Text → Option Text
text_of [] key = none
text_of (f ∷ flags) key = elim (text_of flags key) [
  | some text ↦ some text
  | none ↦ if text_eq.eq (key_of f) key then some f.text else none
]

abbrev in_quotes : Text → Text
in_quotes text = quote ∷ text ++ quote ∷ []

trim_end-append :
    (text : Text) (c : ℕ) → is_whitespace c ≡ false → trim_end (text ++ c ∷ []) ≡ text ++ c ∷ []
unfolding trim_end
trim_end-append [] c h = ground (arith, h)
trim_end-append (d ∷ []) c h = ground (arith, h)
trim_end-append (d ∷ e ∷ text) c h = ground (arith, trim_end-append (e ∷ text) c h)

unescape_plain : (text : Text) → All (λ c. c ≢ backslash) text → unescape text ≡ text
unfolding unescape
unescape_plain [] a = refl
unescape_plain (c ∷ []) a = refl
unescape_plain (c ∷ d ∷ text) a =
    ground (arith, a.0, nat_beq_iff c backslash, unescape_plain (d ∷ text) a.1)

unquote_quoted : (text : Text) → All (λ c. c ≢ backslash) text → unquote (in_quotes text) ≡ text
unfolding unquote trim trim_start inside is_quote is_whitespace
unquote_quoted text a =
    let n : length (text ++ quote ∷ []) ≡ length text + 1 = length-append text (quote ∷ []) in
    ground (
      arith,
      n,
      trim_end-append (quote ∷ text) quote refl,
      last?-append (quote ∷ text) quote,
      take-length-append text (quote ∷ []),
      unescape_plain text a,
    )

split_once-append :
    (key value : Text) → All (λ c. c ≢ 61) key → split_once (key ++ 61 ∷ value) ≡ some (key, value)
unfolding split_once
split_once-append [] value a = refl
split_once-append (c ∷ key) value a =
    ground (arith, a.0, nat_beq_iff c 61, split_once-append key value a.1)

split_flag :
    (f : Flag) → IsFlag f → split_once (token (word_of f)) ≡ some (key_of f, in_quotes f.text)
split_flag f a =
    ap (λ t. split_once (f.first ∷ t)) (append_assoc f.rest (61 ∷ []) (in_quotes f.text))
    ∙ split_once-append (key_of f) (in_quotes f.text) a.1

-- A text that ends in a visible character is not trimmed.
trim_end_plain : (text : Text) → All (λ c. is_whitespace c ≡ false) text → trim_end text ≡ text
unfolding trim_end
trim_end_plain [] a = refl
trim_end_plain (c ∷ []) a = ground (arith, a)
trim_end_plain (c ∷ d ∷ text) a = ground (arith, a, trim_end_plain (d ∷ text) a.1)

unquote_bare :
    (c : ℕ) (text : Text)
    → is_whitespace c ≡ false
    → c ≢ quote
    → trim_end (c ∷ text) ≡ c ∷ text
    → unquote (c ∷ text) ≡ c ∷ text
unfolding unquote trim trim_start is_quote
unquote_bare c text h q e = ground (arith, h, q, e, nat_beq_iff c quote)

trim_parts :
    (c : ℕ) (plain : Text) (o : Option Text)
    → let w : Word = record { first = c; plain = plain; text = o } in
      IsWord w → trim_end (token w) ≡ token w
unfolding is_whitespace
trim_parts c plain none a = trim_end_plain (c ∷ plain ++ []) (
    (All-parts (λ d. is_whitespace d ≡ false) (c ∷ plain) []).1
      ((a.0.0, All-imp _ (λ d. is_whitespace d ≡ false) plain (λ d h. h.0) a.1), tt))
trim_parts c plain (some text) a =
    let split = append_assoc (c ∷ plain) (quote ∷ text) (quote ∷ []) in
    ap trim_end (sym split) ∙ trim_end-append (c ∷ plain ++ quote ∷ text) quote refl ∙ split

unquote_word : (w : Word) → IsWord w → unquote (token w) ≡ token w
unquote_word w a = unquote_bare w.first _ a.0.0 a.0.1 (trim_parts w.first w.plain w.text a)

unquote_words :
    (words : List Word) → All IsWord words → map unquote (map token words) ≡ map token words
unquote_words [] a = refl
unquote_words (w ∷ words) a = ground (arith, unquote_word w a.0, unquote_words words a.1)

All-both {κ μ ν} :
    {A : Type 0} {P : A → Type κ} {Q : A → Type μ} {R : A → Type ν} (xs : List A)
    → ((x : A) → P x → Q x → R x)
    → All P xs
    → All Q xs
    → All R xs
All-both [] f a b = tt
All-both (x ∷ xs) f a b = (f x a.0 b.0, All-both xs f a.1 b.1)

All-new : (flags : List Flag) → All (λ f. HashMap.get {V = Text} [] (key_of f) ≡ none) flags
unfolding HashMap.get
All-new [] = tt
All-new (f ∷ flags) = (refl, All-new flags)

-- What is found in flags to which the texts of others are added.
abbrev added : List Flag → HashMap Text Text → Text → Option Text
added flags m key = elim (text_of flags key) [
  | some text ↦ some (in_quotes text)
  | none ↦ HashMap.get m key
]

read_flags_lem :
    (flags : List Flag) (m : HashMap Text Text)
    → All IsFlag flags
    → AreDistinct flags
    → All (λ f. HashMap.get m (key_of f) ≡ none) flags
    → (n : HashMap Text Text) × (read_flags (map token (map word_of flags)) m ≡ ok n)
      × ((key : Text) → HashMap.get n key ≡ added flags m key)
unfolding read_flags HashMap.contains_key
read_flags_lem [] m a d new = (m, refl, λ key. refl)
read_flags_lem (f ∷ flags) m a d new =
    let raw = in_quotes f.text in
    let next = HashMap.insert m (key_of f) raw in
    let still : All (λ g. HashMap.get next (key_of g) ≡ none) flags =
      All-both flags (λ g ne h. HashMap.get-insert_ne m (key_of f) (key_of g) raw ne ∙ h) d.0
        new.1 in
    let (n, r, at) = read_flags_lem flags next a.1 d.1 still in
    (
      n,
      ground (arith, split_flag f a.0, new.0, r),
      λ key. ground (arith, at key, HashMap.get-insert m (key_of f) key raw),
    )

drop_words :
    (ps fs : List Word)
    → (drop (length ps) (map token (ps ++ fs)) ≡ map token fs)
      × (take (length ps) (map token (ps ++ fs)) ≡ map token ps)
      × (ltb (length (map token (ps ++ fs))) (length ps) ≡ false)
drop_words [] fs = (refl, refl, ground arith)
drop_words (p ∷ ps) fs =
    let h = drop_words ps fs in (h.0, ap (λ l. token p ∷ l) h.1, ground (arith, h.2))

flags-IsWord : (flags : List Flag) → All IsFlag flags → All IsWord (map word_of flags)
flags-IsWord [] a = tt
flags-IsWord (f ∷ flags) a = (a.0.0, flags-IsWord flags a.1)

unquote_found :
    (flags : List Flag) (key : Text)
    → All IsFlag flags
    → (elim (added flags [] key) [ some v ↦ some (unquote v) | none ↦ none ]) ≡ text_of flags key
unfolding HashMap.get
unquote_found [] key a = refl
unquote_found (f ∷ flags) key a =
    ground (arith, unquote_found flags key a.1, unquote_quoted f.text a.0.0.2)

-- A command is typed as positional words and then flags, with a space between each and the next: any
-- number of words, of flags with different keys that have no equals sign, and with quoted texts that
-- have no backslash. Its line is split into one token for each of them, and read with as many
-- positionals as there are words: these are the tokens of the words, and the text of a flag is the one
-- that was quoted, without its quotes and escapes; no other key has one.
pub typed_command :
    (words : List Word) (flags : List Flag)
    → All IsWord words
    → All IsFlag flags
    → AreDistinct flags
    → let typed = words ++ map word_of flags in
      (args : CommandArgs) × (tokenize (line typed) ≡ ok (map token typed))
      × (parse_command_args (map token typed) (length words) ≡ ok args)
      × (args.positionals ≡ map token words)
      × ((key : Text) → flag_text args key ≡ text_of flags key)
unfolding parse_command_args flag_text
typed_command words flags w a d =
    let (n, r, at) = read_flags_lem flags [] a d (All-new flags) in
    let fits = drop_words words (map word_of flags) in
    (
      record { positionals = map token words; flags = n },
      tokenize_words (words ++ map word_of flags)
          ((All-parts IsWord words (map word_of flags)).1 (w, flags-IsWord flags a)),
      ground (arith, fits, r, unquote_words words w),
      refl,
      λ key. ground (arith, at key, unquote_found flags key a),
    )
