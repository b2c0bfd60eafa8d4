-- ===== src/Db/Table/Dictionary.antt =====
-- A dictionary in which one key has another entry.
use somenote.Common.{
  ◌≡◌, ◌≢◌, sym, ap, ◌∙◌, ℕ, true, false, Bool-cases, Option, inl, inr, List, if◌then◌else◌,
}
use somenote.Libc.Text.{text, same_text, same_text_refl, same_text_sound}

-- Keys are compared as `strcmp` does, by their texts.
abbrev pub updated :
    (List ℕ → Option (List ℕ)) → List ℕ → Option (List ℕ) → List ℕ → Option (List ℕ)
updated m key entry k = if same_text (text k) (text key) then entry else m k

pub updated_self :
    (m : List ℕ → Option (List ℕ)) (key : List ℕ) (entry : Option (List ℕ))
    → updated m key entry key ≡ entry
updated_self m key entry = rw (same_text_refl (text key))

pub updated_ne :
    (m : List ℕ → Option (List ℕ)) (key : List ℕ) (entry : Option (List ℕ)) (k : List ℕ)
    → text k ≢ text key
    → updated m key entry k ≡ m k
updated_ne m key entry k ne = elim (Bool-cases (same_text (text k) (text key))) [
  | inl same ↦ absurd (ne (same_text_sound (text k) (text key) same))
  | inr other ↦ rw other
]

-- A dictionary that has the entry for the key, and is as before elsewhere.
pub updated-intro :
    (m n : List ℕ → Option (List ℕ)) (key : List ℕ) (entry : Option (List ℕ))
    → ((k : List ℕ) → text k ≡ text key → n k ≡ entry)
    → ((k : List ℕ) → text k ≢ text key → n k ≡ m k)
    → (k : List ℕ) → n k ≡ updated m key entry k
updated-intro m n key entry there kept k = elim (Bool-cases (same_text (text k) (text key))) [
  | inl same ↦ rw same (there k (same_text_sound (text k) (text key) same))
  | inr other ↦ rw other (
      kept k (λ h.
        true_not_false
          (sym (ap (λ s. same_text s (text key)) h ∙ same_text_refl (text key)) ∙ other)))
]
  where
    true_not_false : true ≡ false → ⊥
    true_not_false q = cc
