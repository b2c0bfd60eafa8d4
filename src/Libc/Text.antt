-- ===== src/Libc/Text.antt =====
-- Text in a buffer that ends in a null byte: `strlen`, `strcmp`, `strchr`.
use somenote.Common.{
  ℕ, zero, suc, replicate, ◌≡◌, ◌≢◌, refl, Bool, true, false, ◌&&◌, Option, none, some, List, [],
  ◌∷◌, ◌++◌, arith, ◌==◌, if◌then◌else◌, length,
}
use mathlib.Core.Option
use Prim.Native.Char.{code}
use Prim.Native.String.{String}

-- The bytes of an ASCII literal.
abbrev pub codes : String → List ℕ
codes String.[] = []
codes (String.◌∷◌ c s) = code c ∷ codes s

-- The text at the start of a buffer: what stands before the first null byte.
unfoldable pub text : List ℕ → List ℕ
text [] = []
text (c ∷ s) = if c == 0 then [] else c ∷ text s

unfoldable pub strlen : List ℕ → ℕ
strlen s = length (text s)

-- `strcmp(a, b) == 0` of two texts
unfoldable pub same_text : List ℕ → List ℕ → Bool
same_text [] [] = true
same_text [] (d ∷ t) = false
same_text (c ∷ s) [] = false
same_text (c ∷ s) (d ∷ t) = c == d && same_text s t

-- The index of the first `x` in a text, if the text has one before its null byte.
pub strchr : List ℕ → ℕ → Option ℕ
strchr [] x = none
strchr (c ∷ s) x = if c == x then some 0 else if c == 0 then none else Option.map suc (strchr s x)

-- `x` does not occur.
abbrev pub Lacks : ℕ → List ℕ → Type 0
Lacks x [] = Unit {0}
Lacks x (c ∷ s) = (c ≢ x) × Lacks x s

abbrev pub NoNull : List ℕ → Type 0
NoNull = Lacks 0

pub Lacks-append : (x : ℕ) (s t : List ℕ) → Lacks x s → Lacks x t → Lacks x (s ++ t)
Lacks-append x [] t h g = g
Lacks-append x (c ∷ s) t h g = (h.0, Lacks-append x s t h.1 g)

pub text_of_NoNull : (s r : List ℕ) → NoNull s → text (s ++ 0 ∷ r) ≡ s
unfolding text
text_of_NoNull [] r h = refl
text_of_NoNull (c ∷ s) r h = ground (arith, text_of_NoNull s r h.1)

pub text_self : (s : List ℕ) → NoNull s → text s ≡ s
unfolding text
text_self [] h = refl
text_self (c ∷ s) h = ground (arith, text_self s h.1)

pub same_text_refl : (s : List ℕ) → same_text s s ≡ true
unfolding same_text
same_text_refl [] = refl
same_text_refl (c ∷ s) = ground (arith, same_text_refl s)

pub same_text_sound : (s t : List ℕ) → same_text s t ≡ true → s ≡ t
unfolding same_text
same_text_sound [] [] h = refl
same_text_sound [] (d ∷ t) h = cc
same_text_sound (c ∷ s) [] h = cc
same_text_sound (c ∷ s) (d ∷ t) h = ground (arith, same_text_sound s t)

pub strchr-append :
    (s r : List ℕ) (x : ℕ) → NoNull s → Lacks x s → strchr (s ++ x ∷ r) x ≡ some (length s)
unfolding strchr
strchr-append [] r x h l = ground arith
strchr-append (c ∷ s) r x h l = ground (arith, strchr-append s r x h.1 l.1)

-- A text without `x`.
pub strchr-none :
    (s r : List ℕ) (x : ℕ) → NoNull s → Lacks x s → x ≢ 0 → strchr (s ++ 0 ∷ r) x ≡ none
unfolding strchr
strchr-none [] r x h l ne = ground arith
strchr-none (c ∷ s) r x h l ne = ground (arith, strchr-none s r x h.1 l.1 ne)

pub Lacks-replicate : (x n c : ℕ) → c ≢ x → Lacks x (replicate n c)
Lacks-replicate x zero c h = tt
Lacks-replicate x (suc n) c h = (h, Lacks-replicate x n c h)
