-- ===== src/Text/Decimal.antt =====
-- The decimal digits of a u32, as `to_string` of Rust's standard library prints them.
use Prim.Native.Char.{Char, char, code}
use Prim.Native.String.{[] as nil, ◌∷◌ as ◌∷ₛ◌}
use Prim.Native.Nat.{◌/◌}
use bbn.Prelude.{
  ℕ, zero, suc, ◌+◌, ◌-◌, ◌*◌, ◌%◌, ◌^◌, ◌<◌, ◌≡◌, refl, sym, ap, ◌&&◌, true, false, some,
  if◌then◌else◌, leb, ltb, eqb, arith, String, Bool-cases, inl, inr, ◌∙◌,
}
use bbn.Text.{parse_u32, digits_value, below_u32}

-- The digit of a number below 10.
abbrev pub digit : ℕ → Char
digit zero = char 48 tt
digit (suc zero) = char 49 tt
digit (suc (suc zero)) = char 50 tt
digit (suc (suc (suc zero))) = char 51 tt
digit (suc (suc (suc (suc zero)))) = char 52 tt
digit (suc (suc (suc (suc (suc zero))))) = char 53 tt
digit (suc (suc (suc (suc (suc (suc zero)))))) = char 54 tt
digit (suc (suc (suc (suc (suc (suc (suc zero))))))) = char 55 tt
digit (suc (suc (suc (suc (suc (suc (suc (suc zero)))))))) = char 56 tt
digit (suc (suc (suc (suc (suc (suc (suc (suc (suc n))))))))) = char 57 tt

-- The digits of a number before a text, for as many digits as there is fuel.
unfoldable pub show_digits : ℕ → ℕ → String → String
show_digits zero n s = s
show_digits (suc fuel) n s =
    let more = show_digits fuel (n / 10) (digit (n % 10) ∷ₛ s) in
    if ltb n 10 then digit n ∷ₛ s else more

-- `n.to_string()` for a u32, which has at most ten digits.
unfoldable pub u32_to_string : ℕ → String
unfolding show_digits
u32_to_string n = show_digits 10 n nil

code-digit : (n : ℕ) → n < 10 → code (digit n) ≡ 48 + n
code-digit zero h = refl
code-digit (suc zero) h = refl
code-digit (suc (suc zero)) h = refl
code-digit (suc (suc (suc zero))) h = refl
code-digit (suc (suc (suc (suc zero)))) h = refl
code-digit (suc (suc (suc (suc (suc zero))))) h = refl
code-digit (suc (suc (suc (suc (suc (suc zero)))))) h = refl
code-digit (suc (suc (suc (suc (suc (suc (suc zero))))))) h = refl
code-digit (suc (suc (suc (suc (suc (suc (suc (suc zero)))))))) h = refl
code-digit (suc (suc (suc (suc (suc (suc (suc (suc (suc zero))))))))) h = refl
code-digit (suc (suc (suc (suc (suc (suc (suc (suc (suc (suc n)))))))))) h =
    absurd (omega (arith, h))

digits_value-digit :
    (acc n : ℕ) (s : String)
    → n < 10
    → digits_value acc (digit n ∷ₛ s) ≡ digits_value (acc * 10 + n) s
digits_value-digit acc n s h =
    let e = code-digit n h in
    let same : acc * 10 + (48 + n - 48) ≡ acc * 10 + n = omega arith in
    let in_digits : (leb 48 (48 + n) && leb (48 + n) 57) ≡ true = ground arith in
    rw (e, in_digits, same) refl

pow_suc : (k : ℕ) → 10 ^ suc k ≡ 10 * 10 ^ k
pow_suc k = omega arith

digits_value-show_digits :
    (fuel n : ℕ) (s : String)
    → n < 10 ^ fuel
    → digits_value 0 (show_digits fuel n s) ≡ digits_value n s
unfolding show_digits
digits_value-show_digits zero n s h =
    let e : n ≡ 0 = omega (arith, h) in ap (λ k. digits_value k s) (sym e)
digits_value-show_digits (suc fuel) n s h = elim (Bool-cases (ltb n 10)) [
  | inl small ↦
      rw small (digits_value-digit 0 n s (ground arith) ∙ ap (λ k. digits_value k s) (omega arith))
  | inr big ↦ rw big (
      digits_value-show_digits fuel (n / 10) (digit (n % 10) ∷ₛ s) (omega (arith, h, pow_suc fuel))
      ∙ digits_value-digit (n / 10) (n % 10) s (omega arith)
      ∙ ap (λ k. digits_value k s) (omega arith))
]

-- A text that does not start with a plus sign.
abbrev IsPlain : String → Type 0
IsPlain s = parse_u32 s ≡ below_u32 (digits_value 0 s)

digit-IsPlain : (n : ℕ) (s : String) → n < 10 → IsPlain (digit n ∷ₛ s)
digit-IsPlain n s h =
    let e = code-digit n h in let plus : eqb (48 + n) 43 ≡ false = ground arith in rw (e, plus) refl

show_digits-IsPlain :
    (fuel n m : ℕ) (s : String) → m < 10 → IsPlain (show_digits fuel n (digit m ∷ₛ s))
unfolding show_digits
show_digits-IsPlain zero n m s h = digit-IsPlain m s h
show_digits-IsPlain (suc fuel) n m s h = elim (Bool-cases (ltb n 10)) [
  | inl small ↦ rw small (digit-IsPlain n (digit m ∷ₛ s) (ground arith))
  | inr big ↦ rw big (show_digits-IsPlain fuel (n / 10) (n % 10) (digit m ∷ₛ s) (omega arith))
]

show_digits-IsPlain_end : (fuel n : ℕ) → IsPlain (show_digits (suc fuel) n nil)
unfolding show_digits
show_digits-IsPlain_end fuel n = elim (Bool-cases (ltb n 10)) [
  | inl small ↦ rw small (digit-IsPlain n nil (ground arith))
  | inr big ↦ rw big (show_digits-IsPlain fuel (n / 10) (n % 10) nil (omega arith))
]

-- A u32 is read back from its decimal digits.
pub parse_u32-u32_to_string : (n : ℕ) → n < 2 ^ 32 → parse_u32 (u32_to_string n) ≡ some n
unfolding u32_to_string
parse_u32-u32_to_string n h =
    show_digits-IsPlain_end 9 n
    ∙ rw (digits_value-show_digits 10 n nil (omega arith)) (ground arith)
