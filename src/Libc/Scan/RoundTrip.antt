-- ===== src/Libc/Scan/RoundTrip.antt =====
-- A number that was printed is read back, and so is a word.
use somenote.Common.{
  ℕ, zero, suc, ◌+◌, ◌/◌, ◌%◌, ◌^◌, ◌≤◌, ◌<◌, ◌≡◌, refl, ap, ◌∙◌, true, false, none, some, List, [],
  ◌∷◌, ◌++◌, append_assoc, arith, inl, inr, min,
}
use somenote.Libc.Int.{ℤ, pos, negsuc}
use somenote.Libc.Decimal.{decimal, digits_on, is_digit, is_space, long_max}
use somenote.Libc.Decimal.RoundTrip.{
  Stops, digits_on-small, digits_on-large, digits_on-head, lt_or_ge,
}
use somenote.Libc.Scan.{
  show_int, skip_space, word, number, unsigned, to_long, to_neg_long, scan_long, to_int, scan_int,
}

-- An integer that an `int` holds.
abbrev pub IsInt : ℤ → Type 0
IsInt (pos n) = n < 2 ^ 31
IsInt (negsuc n) = n < 2 ^ 31

-- No white space in a text.
abbrev pub NoSpace : List ℕ → Type 0
NoSpace [] = Unit {0}
NoSpace (c ∷ s) = (is_space c ≡ false) × NoSpace s

number_one : (m : ℕ) (t : List ℕ) → m < 10 → number 0 ((48 + m) ∷ t) ≡ number m t
unfolding number
number_one m t g = ground arith

number_last : (m : ℕ) (t : List ℕ) → number (m / 10) ((48 + m % 10) ∷ t) ≡ number m t
unfolding number
number_last m t = ground arith

number-digits_on : (f n : ℕ) (r : List ℕ) → n < f → number 0 (digits_on f n ++ r) ≡ number n r
number-digits_on zero n r h = absurd (omega arith)
number-digits_on (suc f) n r h = elim (lt_or_ge n 10) [
  | inl small ↦ rw (digits_on-small f n small) (number_one n r small)
  | inr large ↦ rw (digits_on-large f n large) (
      ap (number 0) (append_assoc (digits_on f (n / 10)) ((48 + n % 10) ∷ []) r)
      ∙ number-digits_on f (n / 10) ((48 + n % 10) ∷ r) (omega arith)
      ∙ number_last n r)
]

number-Stops : (n : ℕ) (r : List ℕ) → Stops r → number n r ≡ (n, r)
unfolding number
number-Stops n [] h = refl
number-Stops n (c ∷ r) h = rw h

-- Behind the sign.
unsigned-decimal :
    (f : ℕ → ℤ) (n : ℕ) (r : List ℕ) → Stops r → unsigned f (decimal n ++ r) ≡ (some (f n), r)
unfolding decimal
unsigned-decimal f n r h =
    let (c, s, e, d) = digits_on-head (suc n) n (omega arith) in
    let v : number 0 (digits_on (suc n) n ++ r) ≡ (n, r) =
      number-digits_on (suc n) n r (omega arith) ∙ number-Stops n r h in
    let v' : number 0 (c ∷ (s ++ r)) ≡ (n, r) = rw e at v in rw (e, d, v')

signed_digit :
    (c : ℕ) (s : List ℕ) → is_digit c ≡ true → scan_long (c ∷ s) ≡ unsigned to_long (c ∷ s)
unfolding scan_long skip_space
signed_digit c s h = ground arith

scan_minus : (s : List ℕ) → scan_long (b'-' ∷ s) ≡ unsigned to_neg_long s
unfolding scan_long skip_space
scan_minus s = refl

min_small : (n m : ℕ) → n ≤ m → min n m ≡ n
min_small n m h = omega arith

scan_plain : (n : ℕ) (r : List ℕ) → scan_long (decimal n ++ r) ≡ unsigned to_long (decimal n ++ r)
unfolding decimal
scan_plain n r =
    let (c, s, e, d) = digits_on-head (suc n) n (omega arith) in rw e (signed_digit c (s ++ r) d)

scan_long-show_int :
    (z : ℤ) (r : List ℕ) → IsInt z → Stops r → scan_long (show_int z ++ r) ≡ (some z, r)
unfolding show_int
scan_long-show_int (pos n) r h stop =
    scan_plain n r ∙ unsigned-decimal to_long n r stop ∙ rw (min_small n long_max (omega arith))
scan_long-show_int (negsuc n) r h stop =
    scan_minus (decimal (suc n) ++ r)
    ∙ unsigned-decimal to_neg_long (suc n) r stop
    ∙ rw (min_small (suc n) (long_max + 1) (omega arith))

to_int-IsInt : (z : ℤ) → IsInt z → to_int z ≡ z
unfolding to_int
to_int-IsInt (pos n) h = ground arith
to_int-IsInt (negsuc n) h = ground arith

-- What `%d` prints, `%d` reads, whatever stands behind it but a digit.
pub scan_int-show_int :
    (z : ℤ) (r : List ℕ) → IsInt z → Stops r → scan_int (show_int z ++ r) ≡ (some z, r)
unfolding scan_int
scan_int-show_int z r h stop = rw (scan_long-show_int z r h stop, to_int-IsInt z h)

-- White space before a number is skipped.
pub scan_int-space : (c : ℕ) (s : List ℕ) → is_space c ≡ true → scan_int (c ∷ s) ≡ scan_int s
unfolding scan_int scan_long skip_space
scan_int-space c s h = rw h

-- At the end of the input there is no number.
pub scan_int-nothing : scan_int [] ≡ (none, [])
unfolding scan_int scan_long skip_space
scan_int-nothing = refl

pub word-NoSpace :
    (w : List ℕ) (c : ℕ) (r : List ℕ)
    → NoSpace w
    → is_space c ≡ true
    → word (w ++ c ∷ r) ≡ (w, c ∷ r)
unfolding word
word-NoSpace [] c r h k = rw k
word-NoSpace (d ∷ w) c r h k = rw (h.0, word-NoSpace w c r h.1 k)

pub word-end : (w : List ℕ) → NoSpace w → word w ≡ (w, [])
unfolding word
word-end [] h = refl
word-end (d ∷ w) h = rw (h.0, word-end w h.1)

skip_space-space : (c : ℕ) (s : List ℕ) → is_space c ≡ true → skip_space (c ∷ s) ≡ skip_space s
unfolding skip_space
skip_space-space c s h = rw h

pub skip_space-NoSpace :
    (c : ℕ) (w r : List ℕ) → NoSpace (c ∷ w) → skip_space ((c ∷ w) ++ r) ≡ (c ∷ w) ++ r
unfolding skip_space
skip_space-NoSpace c w r h = rw h.0
