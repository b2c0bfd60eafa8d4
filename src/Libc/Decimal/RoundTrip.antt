-- ===== src/Libc/Decimal/RoundTrip.antt =====
-- Printing a number and reading it back.
use somenote.Common.{
  ℕ, zero, suc, ◌+◌, ◌-◌, ◌/◌, ◌%◌, ◌≤◌, ◌<◌, ◌≡◌, refl, ap, ◌∙◌, true, false, List, [], ◌∷◌, ◌++◌,
  min, arith, inl, inr, replicate, append_assoc, length, ◌⊎◌,
}
use somenote.Libc.Int.{pos}
use somenote.Libc.Decimal.{digits_on, decimal, padded, is_digit, digits_value, atol, long_max}

-- The text does not begin with a digit.
abbrev pub Stops : List ℕ → Type 0
Stops [] = Unit {0}
Stops (c ∷ s) = is_digit c ≡ false

pub digits_on-small : (f n : ℕ) → n < 10 → digits_on (suc f) n ≡ (48 + n) ∷ []
unfolding digits_on
digits_on-small f n h = ground arith

pub digits_on-large :
    (f n : ℕ) → 10 ≤ n → digits_on (suc f) n ≡ digits_on f (n / 10) ++ (48 + n % 10) ∷ []
unfolding digits_on
digits_on-large f n h = ground arith

pub lt_or_ge : (m n : ℕ) → (m < n) ⊎ (n ≤ m)
lt_or_ge m n = grind arith

one : (m : ℕ) (t : List ℕ) → m < 10 → digits_value 0 ((48 + m) ∷ t) ≡ digits_value m t
unfolding digits_value
one m t g = ground arith

last : (m : ℕ) (t : List ℕ) → digits_value (m / 10) ((48 + m % 10) ∷ t) ≡ digits_value m t
unfolding digits_value
last m t = ground arith

-- The digits of a number are read back, whatever follows them.
digits_value-digits_on :
    (f n : ℕ) (r : List ℕ) → n < f → digits_value 0 (digits_on f n ++ r) ≡ digits_value n r
digits_value-digits_on zero n r h = absurd (omega arith)
digits_value-digits_on (suc f) n r h = elim (lt_or_ge n 10) [
  | inl small ↦ rw (digits_on-small f n small) (one n r small)
  | inr large ↦ rw (digits_on-large f n large) (
      ap (digits_value 0) (append_assoc (digits_on f (n / 10)) ((48 + n % 10) ∷ []) r)
      ∙ digits_value-digits_on f (n / 10) ((48 + n % 10) ∷ r) (omega arith)
      ∙ last n r)
]

digits_value-Stops : (n : ℕ) (r : List ℕ) → Stops r → digits_value n r ≡ n
unfolding digits_value
digits_value-Stops n [] h = refl
digits_value-Stops n (c ∷ r) h = rw h

-- The digits begin with a digit.
pub digits_on-head :
    (f n : ℕ) → n < f → (c : ℕ) × (s : List ℕ) × (digits_on f n ≡ c ∷ s) × (is_digit c ≡ true)
digits_on-head zero n h = absurd (omega arith)
digits_on-head (suc f) n h = elim (lt_or_ge n 10) [
  | inl small ↦ (48 + n, [], digits_on-small f n small, ground arith)
  | inr large ↦
      let (c, s, e, d) = digits_on-head f (n / 10) (omega arith) in
      (c, s ++ (48 + n % 10) ∷ [], rw (digits_on-large f n large, e), d)
]

-- Digits are no white space, and no sign.
atol-digit :
    (c : ℕ) (s : List ℕ)
    → is_digit c ≡ true
    → atol (c ∷ s) ≡ pos (min (digits_value 0 (c ∷ s)) long_max)
unfolding atol
atol-digit c s h = ground arith

pub atol-decimal : (n : ℕ) (r : List ℕ) → n ≤ long_max → Stops r → atol (decimal n ++ r) ≡ pos n
unfolding decimal
atol-decimal n r h stop =
    let (c, s, e, d) = digits_on-head (suc n) n (omega arith) in
    let v : digits_value 0 (digits_on (suc n) n ++ r) ≡ n =
      digits_value-digits_on (suc n) n r (omega arith) ∙ digits_value-Stops n r stop in
    let v' : digits_value 0 (c ∷ (s ++ r)) ≡ n = rw e at v in
    rw e (atol-digit c (s ++ r) d ∙ rw v' (ap pos (omega arith)))

atol-spaces : (k : ℕ) (s : List ℕ) → atol (replicate k 32 ++ s) ≡ atol s
atol-spaces zero s = refl
atol-spaces (suc k) s = atol-space (replicate k 32 ++ s) ∙ atol-spaces k s
  where
    atol-space : (t : List ℕ) → atol (32 ∷ t) ≡ atol t
    atol-space t = unfold atol in refl

-- A padded number is read back.
pub atol-padded :
    (width n : ℕ) (r : List ℕ) → n ≤ long_max → Stops r → atol (padded width n ++ r) ≡ pos n
unfolding padded
atol-padded width n r h stop =
    ap atol (append_assoc (replicate (width - length (decimal n)) 32) (decimal n) r)
    ∙ atol-spaces (width - length (decimal n)) (decimal n ++ r)
    ∙ atol-decimal n r h stop
