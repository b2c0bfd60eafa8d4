-- ===== src/Web/Files.antt =====
-- Sums over the files of c_code/unp/web/web.c, by their flags and descriptors.
use somenote.Common.{
  ℕ, zero, suc, ◌+◌, ◌≤◌, ◌<◌, ◌≡◌, refl, sym, ap, ◌∙◌, Bool, true, false, ◌&&◌, ◌==◌, ltb, List,
  [], ◌∷◌, some, length, get_elem?, set, map, arith,
}
use somenote.Web.State.{maxline, Flags, f_none, f_connecting, f_reading, f_done, File, is_none}
use somenote.Web.Connect.{get_cmd}

abbrev pub bit : Bool → ℕ
bit true = 1
bit false = 0

abbrev pub is_open : Flags → Bool
is_open f_none = false
is_open f_connecting = true
is_open f_reading = true
is_open f_done = false

abbrev pub is_connecting : Flags → Bool
is_connecting f_none = false
is_connecting f_connecting = true
is_connecting f_reading = false
is_connecting f_done = false

abbrev pub is_left : Flags → Bool
is_left f_none = true
is_left f_connecting = true
is_left f_reading = true
is_left f_done = false

-- The steps that a file has before it.
abbrev pub steps_left : Flags → ℕ
steps_left f_none = 3
steps_left f_connecting = 2
steps_left f_reading = 1
steps_left f_done = 0

abbrev pub unconnected : File → ℕ
unconnected x = bit (is_none x.f_flags)

abbrev pub opening : File → ℕ
opening x = bit (is_open x.f_flags)

abbrev pub unread : File → ℕ
unread x = bit (is_left x.f_flags)

abbrev pub steps : File → ℕ
steps x = steps_left x.f_flags

-- The file has a connection with the descriptor.
abbrev pub holds : ℕ → File → ℕ
holds fd x = bit (is_open x.f_flags && x.f_fd == fd)

abbrev pub dials : ℕ → File → ℕ
dials fd x = bit (is_connecting x.f_flags && x.f_fd == fd)

-- The command for the file does not fit into the line.
abbrev pub too_long : File → ℕ
too_long x = bit (ltb maxline (length (get_cmd x.f_name)))

unfoldable pub total {ℓ} : {A : Type ℓ} → (A → ℕ) → List A → ℕ
total f [] = 0
total f (x ∷ xs) = f x + total f xs

module _ {ℓ} {A : Type ℓ} where
  pub total-set :
      (f : A → ℕ) (xs : List A) (i : ℕ) (x y : A)
      → get_elem? xs i ≡ some x
      → total f (set xs i y) + f x ≡ total f xs + f y
  unfolding total
  total-set f [] i x y h = absurd cc
  total-set f (z ∷ xs) zero x y h = let e : z ≡ x = cc in rw e (omega arith)
  total-set f (z ∷ xs) (suc i) x y h = omega (arith, total-set f xs i x y h)

  pub total-at :
      (f : A → ℕ) (xs : List A) (i : ℕ) (x : A) → get_elem? xs i ≡ some x → f x ≤ total f xs
  unfolding total
  total-at f [] i x h = absurd cc
  total-at f (z ∷ xs) zero x h = let e : z ≡ x = cc in rw e (omega arith)
  total-at f (z ∷ xs) (suc i) x h = omega (arith, total-at f xs i x h)

  pub total_mono : (f g : A → ℕ) (xs : List A) → ((x : A) → f x ≤ g x) → total f xs ≤ total g xs
  unfolding total
  total_mono f g [] h = omega arith
  total_mono f g (x ∷ xs) h = omega (arith, h x, total_mono f g xs h)

  pub total-add :
      (f g k : A → ℕ) (xs : List A)
      → ((x : A) → k x ≡ f x + g x)
      → total k xs ≡ total f xs + total g xs
  unfolding total
  total-add f g k [] h = omega arith
  total-add f g k (x ∷ xs) h = omega (arith, h x, total-add f g k xs h)

  -- Where the sum is not 0, it has a place that is not.
  pub total-some :
      (f : A → ℕ) (xs : List A)
      → 0 < total f xs
      → (i : ℕ) × (x : A) × (get_elem? xs i ≡ some x) × (0 < f x)
  unfolding total
  total-some f [] h = absurd (omega arith)
  total-some f (x ∷ xs) h =
      by_first (f x) refl (λ r. let (i, y, p, q) = total-some f xs r in (suc i, y, p, q))
    where
      by_first :
          (n : ℕ)
          → f x ≡ n
          → (0 < total f xs → (i : ℕ) × (y : A) × (get_elem? (x ∷ xs) i ≡ some y) × (0 < f y))
          → (i : ℕ) × (y : A) × (get_elem? (x ∷ xs) i ≡ some y) × (0 < f y)
      by_first zero e r = r (omega arith)
      by_first (suc n) e r = (0, x, refl, omega arith)

  pub set_other :
      (xs : List A) (i j : ℕ) (y : A) → (i == j) ≡ false → get_elem? (set xs i y) j ≡ get_elem? xs j
  set_other [] i j y h = refl
  set_other (x ∷ xs) zero zero y h = absurd cc
  set_other (x ∷ xs) zero (suc j) y h = refl
  set_other (x ∷ xs) (suc i) zero y h = refl
  set_other (x ∷ xs) (suc i) (suc j) y h = set_other xs i j y (ground arith)

  pub set_same :
      (xs : List A) (i : ℕ) (x y : A) → get_elem? xs i ≡ some x → get_elem? (set xs i y) i ≡ some y
  set_same [] i x y h = absurd cc
  set_same (z ∷ xs) zero x y h = refl
  set_same (z ∷ xs) (suc i) x y h = set_same xs i x y h

  pub map-set {κ} :
      {B : Type κ} (f : A → B) (xs : List A) (i : ℕ) (x y : A)
      → get_elem? xs i ≡ some x
      → f y ≡ f x
      → map f (set xs i y) ≡ map f xs
  map-set f [] i x y h e = refl
  map-set f (z ∷ xs) zero x y h e = let p : z ≡ x = cc in ap (λ b. b ∷ map f xs) (e ∙ ap f (sym p))
  map-set f (z ∷ xs) (suc i) x y h e = ap (λ t. f z ∷ t) (map-set f xs i x y h e)

  pub elem_at : (xs : List A) (i : ℕ) → i < length xs → (x : A) × (get_elem? xs i ≡ some x)
  elem_at [] i h = absurd (omega arith)
  elem_at (x ∷ xs) zero h = (x, refl)
  elem_at (x ∷ xs) (suc i) h = elem_at xs i (omega arith)

  pub elem_within : (xs : List A) (i : ℕ) (x : A) → get_elem? xs i ≡ some x → i < length xs
  elem_within [] i x h = absurd cc
  elem_within (z ∷ xs) zero x h = omega arith
  elem_within (z ∷ xs) (suc i) x h = omega (arith, elem_within xs i x h)

  pub set-set : (xs : List A) (i : ℕ) (x y : A) → set (set xs i x) i y ≡ set xs i y
  set-set [] i x y = refl
  set-set (z ∷ xs) zero x y = refl
  set-set (z ∷ xs) (suc i) x y = ap (λ t. z ∷ t) (set-set xs i x y)
