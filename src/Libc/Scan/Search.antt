-- ===== src/Libc/Scan/Search.antt =====
-- What `strstr` finds.
use somenote.Common.{
  ℕ, suc, ◌≡◌, refl, sym, ap, ◌∙◌, Bool, true, false, ◌&&◌, ◌||◌, Option, none, some, List, [], ◌∷◌,
  ◌++◌, length, arith, Bool-cases, inl, inr, ◌==◌, ==_iff,
}
use mathlib.Core.Option
use somenote.Libc.Scan.{starts, strstr}

-- No newline in a text.
abbrev pub NoNewline : List ℕ → Type 0
NoNewline [] = Unit {0}
NoNewline (c ∷ s) = ((c == 10) ≡ false) × NoNewline s

-- Whether a text stands in another at the start of a line; the Boolean says whether the other text
-- begins at one.
unfoldable pub at_some_line : List ℕ → Bool → List ℕ → Bool
at_some_line line b [] = false
at_some_line line b (c ∷ s) = (b && starts line (c ∷ s)) || at_some_line line (c == 10) s

-- Whether what follows a text begins a line.
unfoldable pub ends_line : Bool → List ℕ → Bool
ends_line b [] = b
ends_line b (c ∷ s) = ends_line (c == 10) s

ends_line-cons : (b : Bool) (c : ℕ) (a : List ℕ) → ends_line b (c ∷ a) ≡ ends_line (c == 10) a
unfolding ends_line
ends_line-cons b c a = refl

pub ends_line-append :
    (b : Bool) (a t : List ℕ) → ends_line b (a ++ t) ≡ ends_line (ends_line b a) t
unfolding ends_line
ends_line-append b [] t = refl
ends_line-append b (c ∷ a) t = ends_line-append (c == 10) a t

pub ends_line-NoNewline : (a : List ℕ) → NoNewline a → ends_line false a ≡ false
unfolding ends_line
ends_line-NoNewline [] h = refl
ends_line-NoNewline (c ∷ a) h = rw h.0 (ends_line-NoNewline a h.1)

starts-strstr : (c : ℕ) (s p : List ℕ) → starts p (c ∷ s) ≡ true → strstr (c ∷ s) p ≡ some 0
unfolding strstr
starts-strstr c s p h = rw h refl

next-strstr :
    (c : ℕ) (s p : List ℕ)
    → starts p (c ∷ s) ≡ false
    → strstr (c ∷ s) p ≡ Option.map suc (strstr s p)
unfolding strstr
next-strstr c s p h = rw h refl

not_here :
    (line : List ℕ) (b : Bool) (c : ℕ) (s : List ℕ)
    → starts line (c ∷ s) ≡ false
    → at_some_line line b (c ∷ s) ≡ at_some_line line (c == 10) s
unfolding at_some_line
not_here line true c s h = rw h refl
not_here line false c s h = refl

some_eq : {i j : ℕ} → some i ≡ some j → i ≡ j
some_eq e = cc

none-some : {i : ℕ} → none ≡ some i → ⊥
none-some e = cc

map-none : (o : Option ℕ) → Option.map suc o ≡ none → o ≡ none
map-none none e = refl
map-none (some i) e = absurd (none-some (sym e))

map-some : (o : Option ℕ) (i : ℕ) → Option.map suc o ≡ some i → (j : ℕ) × (o ≡ some j) × (suc j ≡ i)
map-some none i e = absurd (none-some e)
map-some (some j) i e = (j, refl, some_eq e)

in_nothing : (p : List ℕ) (i : ℕ) → strstr [] p ≡ some i → (0 ≡ i) × (starts p [] ≡ true)
unfolding strstr
in_nothing p i h = elim (Bool-cases (starts p [])) [
  | inl here ↦ (some_eq (rw here at h), here)
  | inr not_it ↦ absurd (none-some (rw not_it at h))
]

-- A text that is not found stands at no line.
pub strstr-none :
    (line : List ℕ) (b : Bool) (s : List ℕ) → strstr s line ≡ none → at_some_line line b s ≡ false
strstr-none line b [] h = unfold at_some_line in refl
strstr-none line b (c ∷ s) h = elim (Bool-cases (starts line (c ∷ s))) [
  | inl here ↦ absurd (none-some (sym h ∙ starts-strstr c s line here))
  | inr not_it ↦
      not_here line b c s not_it
      ∙ strstr-none line (c == 10) s
          (map-none (strstr s line) (sym (next-strstr c s line not_it) ∙ h))
]

-- Where a text is found first, no line before it has the text.
pub strstr-some :
    (line : List ℕ) (s : List ℕ) (i : ℕ)
    → strstr s line ≡ some i
    → (a : List ℕ) × (t : List ℕ) × (s ≡ a ++ t)
      × (length a ≡ i)
      × (starts line t ≡ true)
      × ((b : Bool) → at_some_line line b s ≡ at_some_line line (ends_line b a) t)
strstr-some line [] i h =
    let (e, here) = in_nothing line i h in ([], [], refl, e, here, λ b. unfold ends_line in refl)
strstr-some line (c ∷ s) i h = elim (Bool-cases (starts line (c ∷ s))) [
  | inl here ↦ (
    [],
    c ∷ s,
    refl,
    some_eq (sym (starts-strstr c s line here) ∙ h),
    here,
    λ b. unfold ends_line in refl,
  )
  | inr not_it ↦
      let (j, e, k) = map-some (strstr s line) i (sym (next-strstr c s line not_it) ∙ h) in
      let (a, t, split, l, here, same) = strstr-some line s j e in
      (
        c ∷ a,
        t,
        ap (λ u. c ∷ u) split,
        ap suc l ∙ k,
        here,
        λ b.
            not_here line b c s not_it
            ∙ same (c == 10)
            ∙ ap (λ d. at_some_line line d t) (sym (ends_line-cons b c a)),
      )
]

false-true : false ≡ true → ⊥
false-true e = cc

other : (c : ℕ) → (c == 10) ≡ false → (10 == c) ≡ false
other c h = ground arith

-- Behind a start that fails, no line begins within a text without newlines.
pub at_some_line-NoNewline :
    (line a t : List ℕ) → NoNewline a → at_some_line line false (a ++ t) ≡ at_some_line line false t
unfolding at_some_line
at_some_line-NoNewline line [] t h = refl
at_some_line-NoNewline line (c ∷ a) t h = rw h.0 (at_some_line-NoNewline line a t h.1)

pub at_some_line-here :
    (line : List ℕ) (c : ℕ) (s : List ℕ)
    → starts line (c ∷ s) ≡ true
    → at_some_line line true (c ∷ s) ≡ true
unfolding at_some_line
at_some_line-here line c s h = rw h refl

-- A text that begins with another is made of it and a rest.
pub starts-append : (p s : List ℕ) → starts p s ≡ true → (r : List ℕ) × (s ≡ p ++ r)
unfolding starts
starts-append [] s h = (s, refl)
starts-append (c ∷ p) [] h = absurd (false-true h)
starts-append (c ∷ p) (d ∷ s) h = elim (Bool-cases (c == d)) [
  | inl same ↦
      let (r, e) = starts-append p s (rw same at h) in
      (r, rw ((==_iff c d).0 same) (ap (λ t. d ∷ t) e))
  | inr differ ↦ absurd (false-true (rw differ at h))
]

-- The first newline.
pub strstr-newline : (a t : List ℕ) → NoNewline a → strstr (a ++ 10 ∷ t) (10 ∷ []) ≡ some (length a)
unfolding strstr starts
strstr-newline [] t h = refl
strstr-newline (c ∷ a) t h = rw (other c h.0) (rw (strstr-newline a t h.1) refl)
