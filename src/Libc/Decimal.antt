-- ===== src/Libc/Decimal.antt =====
-- Decimal numbers: `%d` and `%*d` of `sprintf`, and `atol`.
pub mod RoundTrip
pub mod Width
use somenote.Common.{
  ℕ, zero, suc, ◌+◌, ◌-◌, ◌*◌, ◌/◌, ◌%◌, ◌^◌, Bool, true, false, ◌&&◌, ◌||◌, List, [], ◌∷◌, ◌++◌,
  min, ◌==◌, ltb, leb, if◌then◌else◌, length, replicate,
}
use somenote.Libc.Int.{ℤ, pos, neg}

-- The digits of a number, the fuel one more than the number at least.
unfoldable pub digits_on : ℕ → ℕ → List ℕ
digits_on zero n = []
digits_on (suc f) n = elim (ltb n 10) [
  | true ↦ (48 + n) ∷ []
  | false ↦ digits_on f (n / 10) ++ (48 + n % 10) ∷ []
]

-- `sprintf("%lld", n)` of a number that is not negative
unfoldable pub decimal : ℕ → List ℕ
unfolding digits_on
decimal n = digits_on (suc n) n

-- `sprintf("%*d", width, n)`
pub padded : ℕ → ℕ → List ℕ
unfolding decimal
padded width n = replicate (width - length (decimal n)) b' ' ++ decimal n

abbrev pub is_digit : ℕ → Bool
is_digit c = leb 48 c && leb c 57

-- `isspace` in the C locale
abbrev pub is_space : ℕ → Bool
is_space c = c == 32 || (leb 9 c && leb c 13)

pub digits_value : ℕ → List ℕ → ℕ
digits_value acc [] = acc
digits_value acc (c ∷ s) = if is_digit c then digits_value (acc * 10 + (c - 48)) s else acc

abbrev pub long_max : ℕ
long_max = 2 ^ 63 - 1

signed_value : List ℕ → ℤ
unfolding digits_value
signed_value [] = pos 0
signed_value (c ∷ s) =
    if c == b'-'
    then neg (min (digits_value 0 s) (long_max + 1))
    else if c == b'+'
    then pos (min (digits_value 0 s) long_max)
    else pos (min (digits_value 0 (c ∷ s)) long_max)

-- `atol`: white space, a sign, digits; what exceeds a `long` gives the nearest `long`.
pub atol : List ℕ → ℤ
unfolding signed_value
atol [] = pos 0
atol (c ∷ s) = if is_space c then atol s else signed_value (c ∷ s)
