-- ===== src/Prelude/Decimal.antt =====
-- `format!("{:0w$}", n)`: decimal digits, padded with zeros to a width.
use Prim.Native.Nat.{ℕ, zero, suc, ◌+◌, ◌-◌, ◌*◌, ◌/◌, ◌%◌}
use Prim.Native.Char.{Char, code}
use Prim.Native.String.{String, ◌++◌ as join}
use Prim.Native.String.append
use mathlib.Core.Path.{◌≡◌, refl, ap, ◌∙◌, sym}
use mathlib.Core.Bool.{true, false, ◌&&◌}
use native.Mathlib.Omega.{arith}
use herdr_remote_channel.Prelude.Tests.{if◌then◌else◌, ◌==◌, ltb}

abbrev char_at : ℕ → String → Char
char_at n String.[] = "0"
char_at zero (String.◌∷◌ c s) = c
char_at (suc n) (String.◌∷◌ c s) = char_at n s

abbrev digit : ℕ → Char
digit n = char_at n "0123456789"

-- `n` in at least `width` digits, in front of `rest`; the first argument is fuel.
unfoldable decimal_before : ℕ → ℕ → ℕ → String → String
decimal_before zero width n rest = rest
decimal_before (suc fuel) width n rest =
    let longer = decimal_before fuel (width - 1) (n / 10) (String.◌∷◌ (digit (n % 10)) rest) in
    if width == 0 && n == 0 then rest else longer

unfoldable pub decimal : ℕ → ℕ → String
unfolding decimal_before
decimal width n = decimal_before (width + n) width n ""

-- The number that the digits of a text spell, after those that spell `n`.
unfoldable value_after : ℕ → String → ℕ
value_after n String.[] = n
value_after n (String.◌∷◌ c s) = value_after (10 * n + (code c - b'0')) s

code-digit : (n : ℕ) → ltb n 10 ≡ true → code (digit n) ≡ b'0' + n
code-digit zero h = refl
code-digit (suc zero) h = refl
code-digit (suc (suc zero)) h = refl
code-digit (suc (suc (suc zero))) h = refl
code-digit (suc (suc (suc (suc zero)))) h = refl
code-digit (suc (suc (suc (suc (suc zero))))) h = refl
code-digit (suc (suc (suc (suc (suc (suc zero)))))) h = refl
code-digit (suc (suc (suc (suc (suc (suc (suc zero))))))) h = refl
code-digit (suc (suc (suc (suc (suc (suc (suc (suc zero)))))))) h = refl
code-digit (suc (suc (suc (suc (suc (suc (suc (suc (suc zero))))))))) h = refl
code-digit (suc (suc (suc (suc (suc (suc (suc (suc (suc (suc n)))))))))) h = ground arith

value_after-decimal_before :
    (fuel width n : ℕ) (rest : String)
    → ltb (fuel) (width + n) ≡ false
    → value_after 0 (decimal_before fuel width n rest) ≡ value_after n rest
unfolding value_after decimal_before
value_after-decimal_before zero width n rest h = ground arith
value_after-decimal_before (suc fuel) width n rest h = ground (
  arith,
  value_after-decimal_before fuel (width - 1) (n / 10) (String.◌∷◌ (digit (n % 10)) rest),
  code-digit (n % 10),
)

-- Two numbers with one decimal text are equal.
pub decimal-injective : (width m n : ℕ) → decimal width m ≡ decimal width n → m ≡ n
unfolding decimal value_after
decimal-injective width m n e =
    sym (value_after-decimal_before (width + m) width m "" (ground arith))
    ∙ ap (value_after 0) e
    ∙ value_after-decimal_before (width + n) width n "" (ground arith)

decimal_of_12 : decimal 8 12 ≡ "00000012"
unfolding decimal
decimal_of_12 = refl

abbrev tail : String → String
tail String.[] = String.[]
tail (String.◌∷◌ c s) = s

-- A common prefix can be taken away.
pub join-cancel : (s t u : String) → join s t ≡ join s u → t ≡ u
join-cancel String.[] t u e = sym (append.nil t) ∙ e ∙ append.nil u
join-cancel (String.◌∷◌ c s) t u e =
    join-cancel s t u (ap tail (sym (append.cons c s t) ∙ e ∙ append.cons c s u))
