-- ===== src/Cvm/Rate/Percent.antt =====
-- What `rate` of c_code/cvm/cvm.c reads from the log of one transfer.
use somenote.Common.{
  ℕ, zero, suc, ◌+◌, ◌^◌, ◌/◌, ◌%◌, ◌<◌, ◌≡◌, refl, sym, ap, ◌∙◌, true, false, Option, none, some,
  List, [], ◌∷◌, ◌++◌, length, arith, inl, inr, ◌==◌, get_or, get_or-append, drop-append,
  length-append, append_assoc,
}
use somenote.Libc.Int.{ℤ, pos}
use somenote.Libc.Text.{codes}
use somenote.Libc.Decimal.{decimal, digits_on}
use somenote.Libc.Decimal.RoundTrip.{digits_on-small, digits_on-large, lt_or_ge}
use somenote.Libc.Scan.{scan_int, strstr, strrchr, show_int}
use somenote.Libc.Scan.RoundTrip.{scan_int-show_int, scan_int-space}
use somenote.Libc.Effect.{ok}
use somenote.Cvm.Rate.{back_to_space, number_before, rate_of}

-- A byte does not stand in a text.
abbrev pub Without : ℕ → List ℕ → Type 0
Without x [] = Unit {0}
Without x (c ∷ s) = ((c == x) ≡ false) × Without x s

Without-append : (x : ℕ) (a t : List ℕ) → Without x a → Without x t → Without x (a ++ t)
Without-append x [] t h k = k
Without-append x (c ∷ a) t h k = (h.0, Without-append x a t h.1 k)

digits_on-Without : (f n : ℕ) → n < f → Without 32 (digits_on f n)
digits_on-Without zero n h = absurd (omega arith)
digits_on-Without (suc f) n h = elim (lt_or_ge n 10) [
  | inl small ↦ rw (digits_on-small f n small) (no_space n, tt)
  | inr large ↦ rw (digits_on-large f n large) (
      Without-append 32 (digits_on f (n / 10)) ((48 + n % 10) ∷ [])
        (digits_on-Without f (n / 10) (omega arith)) (no_space (n % 10), tt))
]
  where
    no_space : (d : ℕ) → ((48 + d) == 32) ≡ false
    no_space d = ground arith

strrchr-Without : (x : ℕ) (s : List ℕ) → Without x s → strrchr s x ≡ none
unfolding strrchr
strrchr-Without x [] h = refl
strrchr-Without x (c ∷ s) h = rw (strrchr-Without x s h.1, h.0) refl

-- The last occurrence.
strrchr-last : (x : ℕ) (a t : List ℕ) → Without x t → strrchr (a ++ x ∷ t) x ≡ some (length a)
unfolding strrchr
strrchr-last x [] t h = rw (strrchr-Without x t h, self x) refl
  where
    self : (y : ℕ) → (y == y) ≡ true
    self y = ground arith
strrchr-last x (c ∷ a) t h = rw (strrchr-last x a t h) refl

get_or-past : (p t : List ℕ) (m : ℕ) → get_or (p ++ t) (length p + m) 0 ≡ get_or t m 0
get_or-past [] t m = let e : 0 + m ≡ m = omega arith in rw e refl
get_or-past (c ∷ p) t m =
    let e : suc (length p) + m ≡ suc (length p + m) = omega arith in rw e (get_or-past p t m)

get_or-Without :
    (x : ℕ) (w r : List ℕ) (j : ℕ) → Without x w → j < length w → (get_or (w ++ r) j 0 == x) ≡ false
get_or-Without x [] r j h k = absurd (omega arith)
get_or-Without x (c ∷ w) r zero h k = h.0
get_or-Without x (c ∷ w) r (suc j) h k = get_or-Without x w r j h.1 (omega arith)

-- Back to the space that stands `n` bytes before.
back_to_space-run :
    (s : List ℕ) (k n : ℕ)
    → (get_or s k 0 == 32) ≡ true
    → ((j : ℕ) → j < n → (get_or s (k + suc j) 0 == 32) ≡ false)
    → back_to_space s (k + n) ≡ some k
back_to_space-run s k zero h g = let e : k + 0 ≡ k = omega arith in rw e (here k h)
  where
    here : (k : ℕ) → (get_or s k 0 == 32) ≡ true → back_to_space s k ≡ some k
    here zero h = unfold back_to_space in rw (back_to_space, h) refl
    here (suc k) h = unfold back_to_space in rw (back_to_space, h) refl
back_to_space-run s k (suc n) h g =
    let e : k + suc n ≡ suc (k + n) = omega arith in
    let g' : (get_or s (suc (k + n)) 0 == 32) ≡ false = rw (← e) (g n (omega arith)) in
    rw e (step s (k + n) g' ∙ back_to_space-run s k n h (λ j l. g j (omega arith)))
  where
    step :
        (s : List ℕ) (i : ℕ)
        → (get_or s (suc i) 0 == 32) ≡ false
        → back_to_space s (suc i) ≡ back_to_space s i
    step s i h = unfold back_to_space in rw (back_to_space, h) refl

decimal-Without : (n : ℕ) → Without 32 (decimal n ++ b'%' ∷ [])
unfolding decimal
decimal-Without n =
    Without-append 32 (digits_on (suc n) n) (b'%' ∷ []) (digits_on-Without (suc n) n (omega arith))
      (refl, tt)

-- Behind the space there is no other up to the percent sign.
behind_space :
    (p t : List ℕ) (n j : ℕ)
    → j < suc (length (decimal n))
    → (get_or (p ++ 32 ∷ (decimal n ++ b'%' ∷ t)) (length p + suc j) 0 == 32) ≡ false
behind_space p t n j l =
    rw
      (
        get_or-past p (32 ∷ (decimal n ++ b'%' ∷ t)) (suc j),
        ← append_assoc (decimal n) (b'%' ∷ []) t,
      )
      (get_or-Without 32 (decimal n ++ b'%' ∷ []) t j (decimal-Without n)
        (let e = length-append (decimal n) (b'%' ∷ []) in omega (arith, e, l)))

-- The number between a space and a percent sign.
number_before-decimal :
    (p t : List ℕ) (n : ℕ)
    → n < 2 ^ 31
    → number_before (p ++ 32 ∷ (decimal n ++ b'%' ∷ t)) (length (p ++ 32 ∷ decimal n))
      ≡ some (length p, pos n)
unfolding number_before
number_before-decimal p t n h = rw (number_before, back, drop-append p (32 ∷ rest), number) refl
  where
    rest : List ℕ
    rest = decimal n ++ b'%' ∷ t

    number : (scan_int (32 ∷ rest)).0 ≡ some (pos n)
    number =
        unfold show_int in
        ap (λ (q : Option ℤ × List ℕ). q.0)
          (scan_int-space 32 rest refl ∙ scan_int-show_int (pos n) (b'%' ∷ t) h refl)

    at_space : (get_or (p ++ 32 ∷ rest) (length p) 0 == 32) ≡ true
    at_space = rw (get_or-append p rest 32 0) refl

    back : back_to_space (p ++ 32 ∷ rest) (length (p ++ 32 ∷ decimal n)) ≡ some (length p)
    back = rw (length-append p (32 ∷ decimal n)) (
        back_to_space-run (p ++ 32 ∷ rest) (length p) (suc (length (decimal n))) at_space
          (behind_space p t n))

-- For a log without the text "total size is", in which a space, the digits of a number below
-- 2^31 and a percent sign stand, with no percent sign behind them, rate for one file returns
-- the number.
pub rate_of-percent :
    (p t : List ℕ) (n : ℕ)
    → n < 2 ^ 31
    → Without b'%' t
    → {S : Type 0} (st : S)
    → strstr (p ++ 32 ∷ (decimal n ++ b'%' ∷ t)) (codes "total size is") ≡ none
    → rate_of (p ++ 32 ∷ (decimal n ++ b'%' ∷ t)) st ≡ ok (pos n) st
unfolding rate_of
rate_of-percent p t n h k st e = rw (rate_of, e, last, number_before-decimal p t n h) refl
  where
    last : strrchr (p ++ 32 ∷ (decimal n ++ b'%' ∷ t)) b'%' ≡ some (length (p ++ 32 ∷ decimal n))
    last =
        ap (λ s. strrchr s b'%') (sym (append_assoc p (32 ∷ decimal n) (b'%' ∷ t)))
        ∙ strrchr-last b'%' (p ++ 32 ∷ decimal n) t k
