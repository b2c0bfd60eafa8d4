-- ===== src/Common/Lists.antt =====
-- Lists measured and indexed by native numbers, under the library's names.
use Prim.Native.Nat.{ℕ, zero, suc, ◌+◌, ◌-◌, ◌≤◌, min}
use mathlib.Core.Path.{◌≡◌, refl, sym, ap, ◌∙◌}
use mathlib.Core.List.{List, [], ◌∷◌, ◌++◌, map}
use mathlib.Core.Option.{Option, none, some}
use native.Mathlib.Omega.{arith}

module _ {ℓ} {A : Type ℓ} where
  abbrev pub length : List A → ℕ
  length [] = 0
  length (x ∷ xs) = suc (length xs)

  abbrev pub get_elem? : List A → ℕ → Option A
  get_elem? [] i = none
  get_elem? (x ∷ xs) zero = some x
  get_elem? (x ∷ xs) (suc i) = get_elem? xs i

  abbrev pub get_or : List A → ℕ → A → A
  get_or [] i d = d
  get_or (x ∷ xs) zero d = x
  get_or (x ∷ xs) (suc i) d = get_or xs i d

  -- A write out of bounds changes nothing.
  abbrev pub set : List A → ℕ → A → List A
  set [] i v = []
  set (x ∷ xs) zero v = v ∷ xs
  set (x ∷ xs) (suc i) v = x ∷ set xs i v

  abbrev pub take : ℕ → List A → List A
  take zero xs = []
  take (suc n) [] = []
  take (suc n) (x ∷ xs) = x ∷ take n xs

  abbrev pub drop : ℕ → List A → List A
  drop zero xs = xs
  drop (suc n) [] = []
  drop (suc n) (x ∷ xs) = drop n xs

  abbrev pub replicate : ℕ → A → List A
  replicate zero a = []
  replicate (suc n) a = a ∷ replicate n a

module _ {ℓ} {A : Type ℓ} where
  pub length-append : (xs ys : List A) → length (xs ++ ys) ≡ length xs + length ys
  length-append [] ys = omega arith
  length-append (x ∷ xs) ys = omega (arith, length-append xs ys)

  length-set : (xs : List A) (i : ℕ) (v : A) → length (set xs i v) ≡ length xs
  length-set [] i v = refl
  length-set (x ∷ xs) zero v = refl
  length-set (x ∷ xs) (suc i) v = ap suc (length-set xs i v)

  pub length-take : (n : ℕ) (xs : List A) → length (take n xs) ≡ min n (length xs)
  length-take zero xs = omega arith
  length-take (suc n) [] = omega arith
  length-take (suc n) (x ∷ xs) = omega (arith, length-take n xs)

  pub length-map {κ} : {B : Type κ} (f : A → B) (xs : List A) → length (map f xs) ≡ length xs
  length-map f [] = refl
  length-map f (x ∷ xs) = ap suc (length-map f xs)

  pub length-drop : (n : ℕ) (xs : List A) → length (drop n xs) ≡ length xs - n
  length-drop zero xs = omega arith
  length-drop (suc n) [] = omega arith
  length-drop (suc n) (x ∷ xs) = omega (arith, length-drop n xs)

  pub length-replicate : (n : ℕ) (a : A) → length (replicate n a) ≡ n
  length-replicate zero a = refl
  length-replicate (suc n) a = ap suc (length-replicate n a)

  -- The element behind a prefix: read, replaced, and dropped to.
  pub get_or-append : (xs ys : List A) (y d : A) → get_or (xs ++ y ∷ ys) (length xs) d ≡ y
  get_or-append [] ys y d = refl
  get_or-append (x ∷ xs) ys y d = get_or-append xs ys y d

  pub set-append : (xs ys : List A) (y v : A) → set (xs ++ y ∷ ys) (length xs) v ≡ xs ++ v ∷ ys
  set-append [] ys y v = refl
  set-append (x ∷ xs) ys y v = ap (λ t. x ∷ t) (set-append xs ys y v)

  pub take-append : (xs ys : List A) → take (length xs) (xs ++ ys) ≡ xs
  take-append [] ys = refl
  take-append (x ∷ xs) ys = ap (λ t. x ∷ t) (take-append xs ys)

  pub drop-append : (xs ys : List A) → drop (length xs) (xs ++ ys) ≡ ys
  drop-append [] ys = refl
  drop-append (x ∷ xs) ys = drop-append xs ys

  pub drop-append_cons : (xs ys : List A) (y : A) → drop (suc (length xs)) (xs ++ y ∷ ys) ≡ ys
  drop-append_cons [] ys y = refl
  drop-append_cons (x ∷ xs) ys y = drop-append_cons xs ys y

  pub take_all : (n : ℕ) (xs : List A) → length xs ≤ n → take n xs ≡ xs
  take_all zero [] h = refl
  take_all zero (x ∷ xs) h = absurd (omega arith)
  take_all (suc n) [] h = refl
  take_all (suc n) (x ∷ xs) h = ap (λ t. x ∷ t) (take_all n xs (omega arith))

  pub drop-nil : (n : ℕ) → drop {A = A} n [] ≡ []
  drop-nil zero = refl
  drop-nil (suc n) = refl

  -- Inside a prefix, what follows it is not seen.
  pub take-drop-append :
      (xs ys : List A) (i n : ℕ)
      → i + n ≤ length xs
      → take n (drop i (xs ++ ys)) ≡ take n (drop i xs)
  take-drop-append xs ys zero zero h = refl
  take-drop-append [] ys zero (suc n) h = absurd (omega arith)
  take-drop-append (x ∷ xs) ys zero (suc n) h =
      ap (λ t. x ∷ t) (take-drop-append xs ys zero n (omega arith))
  take-drop-append [] ys (suc i) n h = absurd (omega arith)
  take-drop-append (x ∷ xs) ys (suc i) n h = take-drop-append xs ys i n (omega arith)

  -- An update behind a prefix and one more element.
  pub set-append_past :
      (xs ys : List A) (y : A) (j : ℕ) (v : A)
      → set (xs ++ y ∷ ys) (suc (length xs) + j) v ≡ xs ++ y ∷ set ys j v
  set-append_past [] ys y j v = let e : suc 0 + j ≡ suc j = omega arith in rw e
  set-append_past (x ∷ xs) ys y j v =
      let e : suc (suc (length xs)) + j ≡ suc (suc (length xs) + j) = omega arith in
      rw e (ap (λ t. x ∷ t) (set-append_past xs ys y j v))

  pub drop-drop : (off i : ℕ) (xs : List A) → drop i (drop off xs) ≡ drop (off + i) xs
  drop-drop zero i xs = let e : 0 + i ≡ i = omega arith in rw e
  drop-drop (suc off) i [] = drop-nil i ∙ sym (drop-nil (suc off + i))
  drop-drop (suc off) i (x ∷ xs) =
      let e : suc off + i ≡ suc (off + i) = omega arith in rw e (drop-drop off i xs)

  pub take-drop-take :
      (xs : List A) (n i k : ℕ) → i + k ≤ n → take k (drop i (take n xs)) ≡ take k (drop i xs)
  take-drop-take xs n zero zero h = refl
  take-drop-take xs n (suc i) zero h = refl
  take-drop-take xs zero zero (suc k) h = absurd (omega arith)
  take-drop-take xs zero (suc i) (suc k) h = absurd (omega arith)
  take-drop-take [] (suc n) zero (suc k) h = refl
  take-drop-take [] (suc n) (suc i) (suc k) h = refl
  take-drop-take (x ∷ xs) (suc n) zero (suc k) h =
      ap (λ t. x ∷ t) (take-drop-take xs n zero k (omega arith))
  take-drop-take (x ∷ xs) (suc n) (suc i) (suc k) h = take-drop-take xs n i (suc k) (omega arith)

  pub take-add : (m n : ℕ) (xs : List A) → take (m + n) xs ≡ take m xs ++ take n (drop m xs)
  take-add zero n xs = let e : 0 + n ≡ n = omega arith in rw e
  take-add (suc m) n [] = let e : suc m + n ≡ suc (m + n) = omega arith in rw (e, take-nil n)
    where
      take-nil : (k : ℕ) → take {A = A} k [] ≡ []
      take-nil zero = refl
      take-nil (suc k) = refl
  take-add (suc m) n (x ∷ xs) =
      let e : suc m + n ≡ suc (m + n) = omega arith in rw e (ap (λ t. x ∷ t) (take-add m n xs))
