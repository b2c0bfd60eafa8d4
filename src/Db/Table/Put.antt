-- ===== src/Db/Table/Put.antt =====
-- A function changed at one argument.
use somenote.Common.{
  ℕ, ◌≡◌, ◌≢◌, ◌⊎◌, refl, sym, ◌==◌, arith, inl, inr, subst, if◌then◌else◌, eq→==, ne→==,
}

abbrev pub put {ℓ} : {A : Type ℓ} → ℕ → A → (ℕ → A) → ℕ → A
put c x f j = if j == c then x else f j

pub eq_or_ne : (a b : ℕ) → (a ≡ b) ⊎ (a ≢ b)
eq_or_ne a b = grind arith

pub put_self {ℓ} : {A : Type ℓ} (c : ℕ) (x : A) (f : ℕ → A) → put c x f c ≡ x
put_self c x f = rw (eq→== c c refl)

pub put_ne {ℓ} : {A : Type ℓ} (c : ℕ) (x : A) (f : ℕ → A) (j : ℕ) → j ≢ c → put c x f j ≡ f j
put_ne c x f j h = rw (ne→== j c h)

-- What holds of the new value, and of the old ones elsewhere.
pub put_all {ℓ κ} :
    {A : Type ℓ} (P : ℕ → A → Type κ) (c : ℕ) (x : A) (f : ℕ → A)
    → P c x
    → ((j : ℕ) → j ≢ c → P j (f j))
    → (j : ℕ) → P j (put c x f j)
put_all P c x f here there j = elim (eq_or_ne j c) [
  | inl same ↦ rw (eq→== j c same) (subst (λ k. P k x) (sym same) here)
  | inr other ↦ rw (ne→== j c other) (there j other)
]
