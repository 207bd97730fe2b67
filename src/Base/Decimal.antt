-- ===== src/Base/Decimal.antt =====
-- The decimal digits of a number, as `%d` prints them, and `strings.ReplaceAll` of one character by
-- another.
use Prim.Native.Char.{Char, code}
use Prim.Native.Nat.{◌/◌, ◌%◌, ◌-◌, ◌*◌}
use Prim.Native.String.{String}
use namespace_lister.Base.Core.{
  ℕ, zero, suc, ◌+◌, ◌<◌, ◌≤◌, ◌≡◌, refl, ap, ◌∙◌, sym, if◌then◌else◌, ltb, arith, inl, inr,
  Bool-cases,
}
use namespace_lister.Base.Equality.{◌==◌, nat_eq}

-- The digit of a number below 10.
abbrev digit : ℕ → Char
digit zero = "0"
digit (suc zero) = "1"
digit (suc (suc zero)) = "2"
digit (suc (suc (suc zero))) = "3"
digit (suc (suc (suc (suc zero)))) = "4"
digit (suc (suc (suc (suc (suc zero))))) = "5"
digit (suc (suc (suc (suc (suc (suc zero)))))) = "6"
digit (suc (suc (suc (suc (suc (suc (suc zero))))))) = "7"
digit (suc (suc (suc (suc (suc (suc (suc (suc zero)))))))) = "8"
digit (suc (suc (suc (suc (suc (suc (suc (suc (suc n))))))))) = "9"

-- The digits of `n` in front of a text; the fuel is at least `n`.
unfoldable pub digits_onto : ℕ → ℕ → String → String
digits_onto zero n s = String.◌∷◌ (digit n) s
digits_onto (suc fuel) n s =
    let rest = digits_onto fuel (n / 10) (String.◌∷◌ (digit (n % 10)) s) in
    if ltb n 10 then String.◌∷◌ (digit n) s else rest

unfoldable pub itoa : ℕ → String
unfolding digits_onto
itoa n = digits_onto n n ""

-- The number that digits stand for, after the number `a`.
abbrev value : ℕ → String → ℕ
value a String.[] = a
value a (String.◌∷◌ c s) = value (a * 10 + (code c - 48)) s

code-digit : (n : ℕ) → n < 10 → code (digit n) ≡ 48 + n
code-digit zero h = refl
code-digit (suc zero) h = refl
code-digit (suc (suc zero)) h = refl
code-digit (suc (suc (suc zero))) h = refl
code-digit (suc (suc (suc (suc zero)))) h = refl
code-digit (suc (suc (suc (suc (suc zero))))) h = refl
code-digit (suc (suc (suc (suc (suc (suc zero)))))) h = refl
code-digit (suc (suc (suc (suc (suc (suc (suc zero))))))) h = refl
code-digit (suc (suc (suc (suc (suc (suc (suc (suc zero)))))))) h = refl
code-digit (suc (suc (suc (suc (suc (suc (suc (suc (suc zero))))))))) h = refl
code-digit (suc (suc (suc (suc (suc (suc (suc (suc (suc (suc n)))))))))) h = absurd (omega arith)

value-digit :
    (a n : ℕ) (s : String) → n < 10 → value a (String.◌∷◌ (digit n) s) ≡ value (a * 10 + n) s
value-digit a n s h = ap (λ x. value x s) (omega (arith, code-digit n h))

value-first_digit : (n : ℕ) (s : String) → n < 10 → value 0 (String.◌∷◌ (digit n) s) ≡ value n s
value-first_digit n s h = value-digit 0 n s h ∙ ap (λ x. value x s) (omega arith)

value-digits_onto :
    (fuel n : ℕ) (s : String) → n ≤ fuel → value 0 (digits_onto fuel n s) ≡ value n s
unfolding digits_onto
value-digits_onto zero n s h = value-first_digit n s (omega arith)
value-digits_onto (suc fuel) n s h = elim (Bool-cases (ltb n 10)) [
  | inl small ↦ rw small (value-first_digit n s (ground arith))
  | inr large ↦ rw large (
      value-digits_onto fuel (n / 10) (String.◌∷◌ (digit (n % 10)) s) (ground arith)
      ∙ value-digit (n / 10) (n % 10) s (omega arith)
      ∙ ap (λ x. value x s) (omega arith))
]

-- Different numbers have different digits.
pub itoa-inj : {m n : ℕ} → itoa m ≡ itoa n → m ≡ n
unfolding itoa
itoa-inj {m} {n} h =
    sym (value-digits_onto m m "" (omega arith))
    ∙ ap (value 0) h
    ∙ value-digits_onto n n "" (omega arith)

-- `strings.ReplaceAll` for an old and a new text of one character
unfoldable pub replace_all : ℕ → Char → String → String
replace_all old new String.[] = ""
replace_all old new (String.◌∷◌ c s) =
    let rest = replace_all old new s in
    if code c == old then String.◌∷◌ new rest else String.◌∷◌ c rest
