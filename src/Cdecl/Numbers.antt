-- ===== src/Cdecl/Numbers.antt =====
-- A number in brackets is a word that is no keyword, for c_code/expert_c/cdecl2.c.
use somenote.Common.{
  ℕ, zero, suc, ◌+◌, ◌/◌, ◌%◌, ◌^◌, ◌<◌, ◌≡◌, inl, inr, refl, sym, ap, ◌∙◌, subst, true, false,
  List, [], ◌∷◌, ◌++◌, ◌==◌, length, append-nil, arith,
}
use somenote.Libc.Int.{pos}
use somenote.Libc.Text.{same_text}
use somenote.Libc.Decimal.{decimal, digits_on, is_digit, atol}
use somenote.Libc.Decimal.RoundTrip.{
  digits_on-small, digits_on-large, digits_on-head, lt_or_ge, atol-decimal,
}
use somenote.Libc.Decimal.Width.{length-decimal}
use somenote.Cdecl.Token.{identifier, isalnum, classify_string, one_of}
use somenote.Cdecl.Phrases.{AreAlnum, IsWord}

AreAlnum-append : (s t : List ℕ) → AreAlnum s → AreAlnum t → AreAlnum (s ++ t)
AreAlnum-append [] t h g = g
AreAlnum-append (c ∷ s) t h g = (h.0, AreAlnum-append s t h.1 g)

isalnum-digit : (d : ℕ) → d < 10 → isalnum (48 + d) ≡ true
unfolding isalnum
isalnum-digit d h = ground arith

digits_on-AreAlnum : (f n : ℕ) → n < f → AreAlnum (digits_on f n)
digits_on-AreAlnum zero n h = absurd (omega arith)
digits_on-AreAlnum (suc f) n h = elim (lt_or_ge n 10) [
  | inl small ↦ rw (digits_on-small f n small) (isalnum-digit n small, tt)
  | inr large ↦ rw (digits_on-large f n large) (
      AreAlnum-append (digits_on f (n / 10)) ((48 + n % 10) ∷ [])
        (digits_on-AreAlnum f (n / 10) (omega arith)) (isalnum-digit (n % 10) (omega arith), tt))
]

-- A word that begins with a digit is no keyword.
classify_string-digit :
    (c : ℕ) (s : List ℕ)
    → is_digit c ≡ true
    → classify_string (c ∷ s) ≡ record { type = identifier; string = c ∷ s }
unfolding classify_string one_of same_text
classify_string-digit c s h =
    rw
      (
        no_letter 99 (omega arith),
        no_letter 100 (omega arith),
        no_letter 101 (omega arith),
        no_letter 102 (omega arith),
        no_letter 105 (omega arith),
        no_letter 108 (omega arith),
        no_letter 115 (omega arith),
        no_letter 117 (omega arith),
        no_letter 118 (omega arith),
      )
      refl
  where
    apart : (c x : ℕ) → is_digit c ≡ true → 57 < x → (c == x) ≡ false
    apart c x h g = ground arith

    no_letter : (x : ℕ) → 57 < x → (c == x) ≡ false
    no_letter x g = apart c x h g

-- What the program needs to know of a number.
abbrev IsRead : ℕ → List ℕ → Type 0
IsRead n w =
    IsWord w
    × (classify_string w ≡ record { type = identifier; string = w })
    × (w ≡ decimal n)
    × ((c : ℕ) × (s : List ℕ) × (w ≡ c ∷ s) × (is_digit c ≡ true))

pub decimal-IsRead : (n : ℕ) → n < 2 ^ 31 → IsRead n (decimal n)
unfolding decimal
decimal-IsRead n h =
    let (c, s, e, d) = digits_on-head (suc n) n (omega arith) in
    let word : IsWord (c ∷ s) = (
      subst AreAlnum e (digits_on-AreAlnum (suc n) n (omega arith)),
      omega (arith, length-decimal 9 n (omega arith), ap length e),
    ) in
    (
      subst IsWord (sym e) word,
      ap classify_string e
          ∙ classify_string-digit c s d
          ∙ ap (λ w. record { type = identifier; string = w }) (sym e),
      refl,
      (c, s, e, d),
    )

pub atol-number : (n : ℕ) → n < 2 ^ 31 → atol (decimal n) ≡ pos n
atol-number n h = ap atol (sym (append-nil (decimal n))) ∙ atol-decimal n [] (omega arith) tt
