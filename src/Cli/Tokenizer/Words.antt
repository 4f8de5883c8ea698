-- ===== src/Cli/Tokenizer/Words.antt =====
-- Lines that are made of words (marie-cli/src/repl/tokenizer.rs).
use marie.Base.{
  ℕ, ◌≡◌, ◌≢◌, refl, sym, ◌∙◌, ap, arith, inl, inr, Bool, Bool-cases, true, false, nat_beq,
  nat_beq_iff, if◌then◌else◌, Option, none, some, List, [], ◌∷◌, ◌++◌, map, All, append_assoc,
  append_nil, ok,
}
use marie.Cli.Tokenizer.{
  Text, Mode, State, quote, opening, backslash, space, is_whitespace, push, start_token, end_token,
  push_in, step, escapes, scan, finish, tokenize,
}

-- A character that stands for itself outside quotes.
abbrev pub IsPlain : ℕ → Type 0
IsPlain c = (is_whitespace c ≡ false) × (c ≢ quote) × (c ≢ opening)

-- A word of a command: a first plain character, more of them, and a quoted text that may follow.
pub record Word : Type 0 where
  pub first : ℕ
  pub plain : Text
  pub text : Option Text

abbrev pub IsWord : Word → Type 0
IsWord w =
    IsPlain w.first
    × All IsPlain w.plain
    × (elim w.text [ none ↦ Unit | some text ↦ All (λ c. c ≢ backslash) text ])

-- A text with a backslash before each quote.
abbrev pub escape : Text → Text
escape [] = []
escape (c ∷ text) =
    let rest = escape text in if nat_beq c quote then backslash ∷ quote ∷ rest else c ∷ rest

abbrev pub print : Word → Text
print w =
    w.first ∷ w.plain ++ (elim w.text [ none ↦ [] | some text ↦ quote ∷ escape text ++ quote ∷ [] ])

-- The token of a word: its quotes are kept, its text is not escaped.
abbrev pub token : Word → Text
token w = w.first ∷ w.plain ++ (elim w.text [ none ↦ [] | some text ↦ quote ∷ text ++ quote ∷ [] ])

-- A line of words with a space between each and the next.
abbrev pub line : List Word → Text
line [] = []
line (w ∷ []) = print w
line (w ∷ v ∷ words) = print w ++ space ∷ line (v ∷ words)

abbrev at : List Text → Text → Bool → Mode → State
at tokens current has_current mode = record {
  tokens = tokens;
  current = current;
  has_current = has_current;
  mode = mode;
}

scan_normal :
    (tokens : List Text) (current : Text) (b : Bool) (c : ℕ) (rest : Text)
    → let s = at tokens current b Mode.normal in
      scan s (c ∷ rest) ≡ scan (step Mode.normal s c) rest
unfolding scan escapes
scan_normal tokens current b c [] = refl
scan_normal tokens current b c (d ∷ rest) = refl

scan_plain :
    (tokens : List Text) (current : Text) (b : Bool) (c : ℕ) (plain rest : Text)
    → IsPlain c
    → All IsPlain plain
    → scan (at tokens current b Mode.normal) (c ∷ plain ++ rest)
      ≡ scan (at tokens (current ++ c ∷ plain) true Mode.normal) rest
unfolding step start_token
scan_plain tokens current b c [] rest p a =
    scan_normal tokens current b c rest
    ∙ ap (λ s. scan s rest) (ground (arith, p, nat_beq_iff c quote, nat_beq_iff c opening))
scan_plain tokens current b c (d ∷ plain) rest p a =
    scan_normal tokens current b c (d ∷ plain ++ rest)
    ∙ ap (λ s. scan s (d ∷ plain ++ rest))
        (ground (arith, p, nat_beq_iff c quote, nat_beq_iff c opening))
    ∙ scan_plain tokens (current ++ c ∷ []) true d plain rest a.0 a.1
    ∙ ap (λ t. scan (at tokens t true Mode.normal) rest) (append_assoc current (c ∷ []) (d ∷ plain))

scan_char :
    (tokens : List Text) (current : Text) (c : ℕ) (rest : Text)
    → c ≢ backslash
    → nat_beq c quote ≡ false
    → scan (at tokens current true Mode.quoted) (c ∷ rest)
      ≡ scan (at tokens (current ++ c ∷ []) true Mode.quoted) rest
unfolding scan step escapes push
scan_char tokens current c [] b q = ground (arith, q)
scan_char tokens current c (d ∷ rest) b q = ground (arith, q, b, nat_beq_iff c backslash)

scan_quoted :
    (tokens : List Text) (current text rest : Text)
    → All (λ c. c ≢ backslash) text
    → scan (at tokens current true Mode.quoted) (escape text ++ quote ∷ rest)
      ≡ scan (at tokens (current ++ (text ++ quote ∷ [])) true Mode.normal) rest
unfolding scan step escapes push push_in
scan_quoted tokens current [] [] a = refl
scan_quoted tokens current [] (d ∷ rest) a = refl
scan_quoted tokens current (c ∷ text) rest a = elim (Bool-cases (nat_beq c quote)) [
  | inl e ↦ rw e (
      scan_quoted tokens (current ++ quote ∷ []) text rest a.1
      ∙ ap (λ t. scan (at tokens t true Mode.normal) rest)
          (append_assoc current (quote ∷ []) (text ++ quote ∷ []))
      ∙ ap (λ d. scan (at tokens (current ++ d ∷ (text ++ quote ∷ [])) true Mode.normal) rest)
          (ground (arith, nat_beq_iff c quote, e)))
  | inr e ↦ rw e (
      scan_char tokens current c (escape text ++ quote ∷ rest) a.0 e
      ∙ scan_quoted tokens (current ++ c ∷ []) text rest a.1
      ∙ ap (λ t. scan (at tokens t true Mode.normal) rest)
          (append_assoc current (c ∷ []) (text ++ quote ∷ [])))
]

abbrev word : ℕ → Text → Option Text → Word
word c plain text = record { first = c; plain = plain; text = text }

scan_parts :
    (tokens : List Text) (c : ℕ) (plain : Text) (o : Option Text) (rest : Text)
    → IsWord (word c plain o)
    → scan (at tokens [] false Mode.normal) (print (word c plain o) ++ rest)
      ≡ scan (at tokens (token (word c plain o)) true Mode.normal) rest
unfolding step start_token is_whitespace
scan_parts tokens c plain none rest (p, a, u) =
    ap (λ t. scan (at tokens [] false Mode.normal) (c ∷ t ++ rest)) (append_nil plain)
    ∙ scan_plain tokens [] false c plain rest p a
    ∙ ap (λ t. scan (at tokens (c ∷ t) true Mode.normal) rest) (sym (append_nil plain))
scan_parts tokens c plain (some text) rest (p, a, u) =
    let tail = escape text ++ quote ∷ [] in
    ap (λ t. scan (at tokens [] false Mode.normal) (c ∷ t)) (append_assoc plain (quote ∷ tail) rest)
    ∙ scan_plain tokens [] false c plain (quote ∷ tail ++ rest) p a
    ∙ scan_normal tokens (c ∷ plain) true quote (tail ++ rest)
    ∙ ap (λ t. scan (at tokens (c ∷ plain ++ quote ∷ []) true Mode.quoted) t)
        (append_assoc (escape text) (quote ∷ []) rest)
    ∙ scan_quoted tokens (c ∷ plain ++ quote ∷ []) text rest u
    ∙ ap (λ t. scan (at tokens (c ∷ t) true Mode.normal) rest)
        (append_assoc plain (quote ∷ []) (text ++ quote ∷ []))

scan-print :
    (tokens : List Text) (w : Word) (rest : Text)
    → IsWord w
    → scan (at tokens [] false Mode.normal) (print w ++ rest)
      ≡ scan (at tokens (token w) true Mode.normal) rest
scan-print tokens w rest a = scan_parts tokens w.first w.plain w.text rest a

scan-line :
    (tokens : List Text) (words : List Word)
    → All IsWord words
    → finish Mode.normal (scan (at tokens [] false Mode.normal) (line words))
      ≡ ok (tokens ++ map token words)
unfolding scan step end_token is_whitespace finish
scan-line tokens [] a = ap ok (sym (append_nil tokens))
scan-line tokens (w ∷ []) a =
    ap (λ t. finish Mode.normal (scan (at tokens [] false Mode.normal) t))
      (sym (append_nil (print w)))
    ∙ ap (finish Mode.normal) (scan-print tokens w [] a.0)
scan-line tokens (w ∷ v ∷ words) a =
    ap (finish Mode.normal) (
      scan-print tokens w (space ∷ line (v ∷ words)) a.0
      ∙ scan_normal tokens (token w) true space (line (v ∷ words)))
    ∙ scan-line (tokens ++ token w ∷ []) (v ∷ words) a.1
    ∙ ap ok (append_assoc tokens (token w ∷ []) (map token (v ∷ words)))

scan-line_mode :
    (tokens : List Text) (words : List Word)
    → All IsWord words
    → State.mode (scan (at tokens [] false Mode.normal) (line words)) ≡ Mode.normal
unfolding scan step end_token is_whitespace
scan-line_mode tokens [] a = refl
scan-line_mode tokens (w ∷ []) a =
    ap (λ t. State.mode (scan (at tokens [] false Mode.normal) t)) (sym (append_nil (print w)))
    ∙ ap (λ s. s.mode) (scan-print tokens w [] a.0)
scan-line_mode tokens (w ∷ v ∷ words) a =
    ap (λ s. s.mode)
      (scan-print tokens w (space ∷ line (v ∷ words)) a.0
        ∙ scan_normal tokens (token w) true space (line (v ∷ words)))
    ∙ scan-line_mode (tokens ++ token w ∷ []) (v ∷ words) a.1

-- A line of words, with a space between each and the next and none at its end, is split into the
-- tokens of the words, in their order: a word starts with plain characters and may end in a quoted
-- text, which may hold spaces, brackets and escaped quotes but no backslash; its token keeps the
-- quotes around the text and has the text without the escapes.
pub tokenize_words :
    (words : List Word) → All IsWord words → tokenize (line words) ≡ ok (map token words)
unfolding tokenize
tokenize_words words a =
    let s = scan (at [] [] false Mode.normal) (line words) in
    ap (λ m. finish m s) (scan-line_mode [] words a) ∙ scan-line [] words a
