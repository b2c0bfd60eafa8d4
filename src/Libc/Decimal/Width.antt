-- ===== src/Libc/Decimal/Width.antt =====
-- How wide a printed number is, and which bytes it has.
use native.Mathlib.Nat.{pow-suc, pow-zero}
use somenote.Common.{
  ℕ, zero, suc, ◌+◌, ◌-◌, ◌/◌, ◌%◌, ◌^◌, ◌≤◌, ◌<◌, ◌≡◌, ◌⊎◌, [], ◌∷◌, max, arith, inl, inr,
  replicate, length, length-append, length-replicate,
}
use somenote.Libc.Text.{Lacks, Lacks-append}
use somenote.Libc.Decimal.{digits_on, decimal, padded}
use somenote.Libc.Decimal.RoundTrip.{digits_on-small, digits_on-large, lt_or_ge}

length-digits_on : (k f n : ℕ) → n < f → n < 10 ^ suc k → length (digits_on f n) ≤ suc k
length-digits_on k zero n h b = absurd (omega arith)
length-digits_on zero (suc f) n h b =
    rw (digits_on-small f n (omega (arith, pow-suc 10 0, pow-zero 10))) (omega arith)
length-digits_on (suc k) (suc f) n h b = elim (lt_or_ge n 10) [
  | inl small ↦ rw (digits_on-small f n small) (omega arith)
  | inr large ↦ rw (digits_on-large f n large) (
      omega (
        arith,
        length-append (digits_on f (n / 10)) ((48 + n % 10) ∷ []),
        length-digits_on k f (n / 10) (omega arith) (omega (arith, pow-suc 10 (suc k))),
      ))
]

pub length-decimal : (k n : ℕ) → n < 10 ^ suc k → length (decimal n) ≤ suc k
unfolding decimal
length-decimal k n h = length-digits_on k (suc n) n (omega arith) h

pub length-decimal_pos : (n : ℕ) → 1 ≤ length (decimal n)
unfolding decimal
length-decimal_pos n = elim (lt_or_ge n 10) [
  | inl small ↦ rw (digits_on-small n n small) (omega arith)
  | inr large ↦
      rw (digits_on-large n n large)
        (omega (arith, length-append (digits_on n (n / 10)) ((48 + n % 10) ∷ [])))
]

length-padded : (width n : ℕ) → length (padded width n) ≡ max width (length (decimal n))
unfolding padded
length-padded width n = omega (
  arith,
  length-append (replicate (width - length (decimal n)) 32) (decimal n),
  length-replicate {A = ℕ} (width - length (decimal n)) 32,
)

-- A field of `width` bytes takes every number that has at most that many digits.
pub length-padded_fits : (k n : ℕ) → n < 10 ^ suc k → length (padded (suc k) n) ≡ suc k
length-padded_fits k n h = omega (arith, length-padded (suc k) n, length-decimal k n h)

-- A byte that is no digit does not occur in a printed number.
Lacks-digits_on : (x f n : ℕ) → (x < 48) ⊎ (57 < x) → Lacks x (digits_on f n)
unfolding digits_on
Lacks-digits_on x zero n h = tt
Lacks-digits_on x (suc f) n h = elim (lt_or_ge n 10) [
  | inl small ↦ rw (digits_on-small f n small) (omega arith, tt)
  | inr large ↦ rw (digits_on-large f n large) (
      Lacks-append x (digits_on f (n / 10)) ((48 + n % 10) ∷ []) (Lacks-digits_on x f (n / 10) h)
        (omega arith, tt))
]

pub Lacks-decimal : (x n : ℕ) → (x < 48) ⊎ (57 < x) → Lacks x (decimal n)
unfolding decimal
Lacks-decimal x n = Lacks-digits_on x (suc n) n
