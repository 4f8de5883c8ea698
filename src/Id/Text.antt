-- ===== src/Id/Text.antt =====
-- marie-core/src/id.rs: `Display` and `FromStr` of an identifier, over the bytes of a text.
use marie.Base.{
  take-length-append, ℕ, suc, zero, ◌+◌, ◌-◌, ◌*◌, ◌/◌, ◌%◌, ◌^◌, ◌<◌, ◌≤◌, ◌≡◌, refl, ◌∙◌, ap,
  arith, sym, Bool, false, ◌&&◌, leb, nat_beq, nat_beq_iff, if◌then◌else◌, Option, none, some, List,
  [], ◌∷◌, ◌++◌, take, drop, length, length-append, drop-length-append, get_elem?, All, All-parts,
  Result, ok, err,
}
use marie.Id.{UniqueId}

abbrev pub Bytes : Type 0
Bytes = List ℕ

unfoldable pub digit : ℕ → ℕ
digit d = if leb 10 d then 87 + d else 48 + d

-- `{:0width$x}` of a number with at most that many digits
unfoldable pub hex : ℕ → ℕ → Bytes
hex zero n = []
hex (suc width) n = hex width (n / 16) ++ digit (n % 16) ∷ []

unfoldable pub to_string : UniqueId → Bytes
to_string id = hex 16 id.prefix ++ hex 16 id.local

-- `char::to_digit(16)`
unfoldable pub to_digit : ℕ → Option ℕ
to_digit c =
    if leb 48 c && leb c 57
    then some (c - 48)
    else if leb 97 c && leb c 102
    then some (c - 87)
    else if leb 65 c && leb c 70
    then some (c - 55)
    else none

unfoldable pub parse_digits : ℕ → Bytes → Option ℕ
parse_digits value [] = some value
parse_digits value (c ∷ bytes) = elim (to_digit c) [
  | none ↦ none
  | some d ↦ parse_digits (value * 16 + d) bytes
]

-- `u64::from_str_radix(s, 16)` of at most sixteen bytes, which do not overflow; it takes a plus sign
-- before the digits.
unfoldable pub from_str_radix : Bytes → Option ℕ
from_str_radix [] = none
from_str_radix (c ∷ []) = parse_digits 0 (c ∷ [])
from_str_radix (c ∷ d ∷ bytes) =
    if nat_beq c 43 then parse_digits 0 (d ∷ bytes) else parse_digits 0 (c ∷ d ∷ bytes)

pub data ParseError : Type 0 where
  wrong_length : ParseError
  invalid_digit : ParseError

-- A byte that continues a character; to cut a text before it panics.
unfoldable pub continues : Option ℕ → Bool
continues none = false
continues (some b) = leb 128 b && leb b 191

unfoldable pub parse_parts : Option ℕ → Option ℕ → Result UniqueId ParseError
parse_parts none b = err ParseError.invalid_digit
parse_parts (some prefix) none = err ParseError.invalid_digit
parse_parts (some prefix) (some local) = ok (record { prefix = prefix; local = local })

unfoldable pub from_str : Bytes → Option (Result UniqueId ParseError)
from_str s =
    if nat_beq (length s) 32
    then if continues (get_elem? s 16)
      then none
      else some (parse_parts (from_str_radix (take 16 s)) (from_str_radix (drop 16 s)))
    else some (err ParseError.wrong_length)

to_digit-digit : (d : ℕ) → d < 16 → to_digit (digit d) ≡ some d
unfolding to_digit digit
to_digit-digit d h = ground (arith, h)

parse_digits-append :
    (value : ℕ) (xs : Bytes) (n c d : ℕ)
    → parse_digits value xs ≡ some n
    → to_digit c ≡ some d
    → parse_digits value (xs ++ c ∷ []) ≡ some (n * 16 + d)
unfolding parse_digits
parse_digits-append value [] n c d h k = ground (arith, h, k)
parse_digits-append value (x ∷ xs) n c d h k =
    elim (to_digit x)
        as (λ o.
          (elim o [ none ↦ none | some e ↦ parse_digits (value * 16 + e) xs ]) ≡ some n
          → (elim o [ none ↦ none | some e ↦ parse_digits (value * 16 + e) (xs ++ c ∷ []) ])
            ≡ some (n * 16 + d)) [
              | none ↦ λ p. absurd (ground (arith, p))
              | some e ↦ λ p. parse_digits-append (value * 16 + e) xs n c d p k
            ]
      h

abbrev pub bound : ℕ → ℕ
bound zero = 1
bound (suc width) = 16 * bound width

parse_digits-hex : (width n : ℕ) → n < bound width → parse_digits 0 (hex width n) ≡ some n
unfolding hex parse_digits
parse_digits-hex zero n h = ground (arith, h)
parse_digits-hex (suc width) n h =
    parse_digits-append 0 (hex width (n / 16)) (n / 16) (digit (n % 16)) (n % 16)
      (parse_digits-hex width (n / 16) (omega (arith, h))) (to_digit-digit (n % 16) (omega arith))
    ∙ ap some (omega arith)

length-hex : (width n : ℕ) → length (hex width n) ≡ width
unfolding hex
length-hex zero n = refl
length-hex (suc width) n =
    length-append (hex width (n / 16)) (digit (n % 16) ∷ [])
    ∙ omega (arith, length-hex width (n / 16))

abbrev IsDigit : ℕ → Type 0
IsDigit c = (48 ≤ c) × (c < 128)

digit-IsDigit : (d : ℕ) → d < 16 → IsDigit (digit d)
unfolding digit
digit-IsDigit d h = (ground (arith, h), ground (arith, h))

hex-IsDigit : (width n : ℕ) → All IsDigit (hex width n)
unfolding hex
hex-IsDigit zero n = tt
hex-IsDigit (suc width) n =
    (All-parts IsDigit (hex width (n / 16)) (digit (n % 16) ∷ [])).1
      (hex-IsDigit width (n / 16), (digit-IsDigit (n % 16) (omega arith), tt))

from_str_radix_digits :
    (bytes : Bytes)
    → All IsDigit bytes
    → 0 < length bytes
    → from_str_radix bytes ≡ parse_digits 0 bytes
unfolding from_str_radix
from_str_radix_digits [] a h = absurd (omega (arith, h))
from_str_radix_digits (c ∷ []) a h = refl
from_str_radix_digits (c ∷ d ∷ bytes) a h = ground (arith, nat_beq_iff c 43, a.0.0)

digits_whole : (bytes : Bytes) (i : ℕ) → All IsDigit bytes → continues (get_elem? bytes i) ≡ false
unfolding continues
digits_whole [] i a = refl
digits_whole (c ∷ bytes) zero a = ground (arith, a.0.1)
digits_whole (c ∷ bytes) (suc i) a = digits_whole bytes i a.1

from_str_radix-hex :
    (width n : ℕ) → 0 < width → n < bound width → from_str_radix (hex width n) ≡ some n
from_str_radix-hex width n p h =
    from_str_radix_digits (hex width n) (hex-IsDigit width n) (omega (arith, p, length-hex width n))
    ∙ parse_digits-hex width n h

-- An identifier of two 64-bit numbers is written as 32 hexadecimal digits, and is read back from them.
pub from_str-to_string :
    (id : UniqueId)
    → id.prefix < 2 ^ 64
    → id.local < 2 ^ 64
    → (length (to_string id) ≡ 32) × (from_str (to_string id) ≡ some (ok id))
unfolding to_string from_str parse_parts
from_str-to_string id p l =
    let a = hex 16 id.prefix in
    let b = hex 16 id.local in
    let n : length a ≡ 16 = length-hex 16 id.prefix in
    let size : length (a ++ b) ≡ 32 =
      length-append a b ∙ omega (arith, n, length-hex 16 id.local) in
    let front : take 16 (a ++ b) ≡ a = ap (λ k. take k (a ++ b)) (sym n) ∙ take-length-append a b in
    let back : drop 16 (a ++ b) ≡ b = ap (λ k. drop k (a ++ b)) (sym n) ∙ drop-length-append a b in
    let whole : continues (get_elem? (a ++ b) 16) ≡ false =
      digits_whole (a ++ b) 16
        ((All-parts IsDigit a b).1 (hex-IsDigit 16 id.prefix, hex-IsDigit 16 id.local)) in
    (
      size,
      ground (
        arith,
        size,
        whole,
        ap from_str_radix front ∙ from_str_radix-hex 16 id.prefix (omega arith) p,
        ap from_str_radix back ∙ from_str_radix-hex 16 id.local (omega arith) l,
      ),
    )
