-- ===== src/Text.antt =====
-- The string methods of Rust's standard library that the services use.
pub mod Decimal
use Prim.Native.Char.{Char, code}
use Prim.Native.String.{[] as nil, ◌∷◌ as ◌∷ₛ◌}
use bbn.Prelude.{
  ℕ, ◌+◌, ◌-◌, ◌*◌, Bool, true, false, ◌&&◌, ◌||◌, Option, none, some, if◌then◌else◌, leb, ltb, eqb,
  String,
}

abbrev pub is_empty : String → Bool
is_empty nil = true
is_empty (c ∷ₛ s) = false

abbrev pub all_chars : (Char → Bool) → String → Bool
all_chars p nil = true
all_chars p (c ∷ₛ s) = p c && all_chars p s

abbrev pub first_char : String → Option Char
first_char nil = none
first_char (c ∷ₛ s) = some c

abbrev pub in_range : ℕ → ℕ → Char → Bool
in_range a b c = leb a (code c) && leb (code c) b

abbrev pub is_char : ℕ → Char → Bool
is_char n c = eqb (code c) n

abbrev pub is_ascii_lowercase : Char → Bool
is_ascii_lowercase = in_range 97 122

abbrev pub is_ascii_uppercase : Char → Bool
is_ascii_uppercase = in_range 65 90

abbrev pub is_ascii_digit : Char → Bool
is_ascii_digit = in_range 48 57

abbrev pub is_ascii_alphanumeric : Char → Bool
is_ascii_alphanumeric c = is_ascii_lowercase c || is_ascii_uppercase c || is_ascii_digit c

-- The property White_Space of Unicode.
abbrev pub is_whitespace : Char → Bool
is_whitespace c =
    in_range 9 13 c
    || is_char 32 c
    || is_char 133 c
    || is_char 160 c
    || is_char 5760 c
    || in_range 8192 8202 c
    || is_char 8232 c
    || is_char 8233 c
    || is_char 8239 c
    || is_char 8287 c
    || is_char 12288 c

abbrev pub trim_start : String → String
trim_start nil = nil
trim_start (c ∷ₛ s) = if is_whitespace c then trim_start s else c ∷ₛ s

-- `c` before a text that is trimmed at its end
abbrev push_trimmed : Char → String → String
push_trimmed c nil = if is_whitespace c then nil else c ∷ₛ nil
push_trimmed c (d ∷ₛ s) = c ∷ₛ d ∷ₛ s

abbrev pub trim_end : String → String
trim_end nil = nil
trim_end (c ∷ₛ s) = push_trimmed c (trim_end s)

abbrev pub trim : String → String
trim s = trim_start (trim_end s)

abbrev pub strip_prefix : String → String → Option String
strip_prefix nil s = some s
strip_prefix (c ∷ₛ p) nil = none
strip_prefix (c ∷ₛ p) (d ∷ₛ s) = if eqb (code c) (code d) then strip_prefix p s else none

abbrev digits_value : ℕ → String → Option ℕ
digits_value acc nil = some acc
digits_value acc (c ∷ₛ s) =
    if is_ascii_digit c then digits_value (acc * 10 + (code c - 48)) s else none

abbrev pub below_u32 : Option ℕ → Option ℕ
below_u32 none = none
below_u32 (some n) = if ltb n 4294967296 then some n else none

abbrev pub unsigned_digits : String → Option ℕ
unsigned_digits nil = none
unsigned_digits (c ∷ₛ s) = below_u32 (digits_value 0 (c ∷ₛ s))

-- `s.parse::<u32>().ok()`: digits, after a plus sign at most, below 2^32
abbrev pub parse_u32 : String → Option ℕ
parse_u32 nil = none
parse_u32 (c ∷ₛ s) = if is_char 43 c then unsigned_digits s else unsigned_digits (c ∷ₛ s)

-- `s.split(c).next()`: the text before the first character with a code
abbrev pub before_char : ℕ → String → String
before_char n nil = nil
before_char n (c ∷ₛ s) = if is_char n c then nil else c ∷ₛ before_char n s
