-- ===== src/Cdecl/Reads.antt =====
-- What `gettoken` of c_code/expert_c/cdecl2.c reads.
use somenote.Common.{
  ℕ, suc, ◌<◌, ◌≡◌, refl, ap, ◌∙◌, Bool, true, false, List, [], ◌∷◌, ◌++◌, ◌==◌, ltb, length, arith,
}
use somenote.Libc.Effect.{ok}
use somenote.Cdecl.Token.{
  maxtokenlen, end_of_input, Token, Reader, isalnum, classify_string, word_at, after_spaces,
  word_token, token_from, gettoken,
}
use somenote.Cdecl.Phrases.{AreAlnum, IsWord}

-- A character that is a token of its own.
abbrev pub IsSymbol : ℕ → Type 0
IsSymbol c = (isalnum c ≡ false) × ((c == 32) ≡ false) × ((c == end_of_input) ≡ false)

abbrev pub symbol : ℕ → Token
symbol c = record { type = c; string = c ∷ [] }

-- What ends a word, and is left in the input.
abbrev pub EndsWord : ℕ → Type 0
EndsWord c = (isalnum c ≡ false) × ((c == end_of_input) ≡ false)

word_at-AreAlnum :
    (w : List ℕ) (x : ℕ) (r : List ℕ) → AreAlnum w → EndsWord x → word_at (w ++ x ∷ r) ≡ (w, x ∷ r)
unfolding word_at
word_at-AreAlnum [] x r h e = rw (e.0, e.1) refl
word_at-AreAlnum (c ∷ w) x r h e = rw (h.0, word_at-AreAlnum w x r h.1 e) refl

alnum-no_space : (c : ℕ) → isalnum c ≡ true → (c == 32) ≡ false
unfolding isalnum
alnum-no_space c h = ground arith

pub gettoken-symbol :
    (c : ℕ) (t : List ℕ) (r : Reader)
    → IsSymbol c
    → r.input ≡ c ∷ t
    → gettoken r ≡ ok tt (record r { input = t; this = symbol c })
unfolding gettoken after_spaces token_from
gettoken-symbol c t r h e = rw (e, h.1, h.0) refl

pub gettoken-word :
    (w : List ℕ) (x : ℕ) (t : List ℕ) (r : Reader)
    → IsWord w
    → EndsWord x
    → r.input ≡ w ++ x ∷ t
    → gettoken r ≡ ok tt (record r { input = x ∷ t; this = classify_string w })
unfolding gettoken after_spaces token_from word_token
gettoken-word [] x t r h q e = absurd h
gettoken-word (c ∷ w) x t r h q e =
    rw (e, alnum-no_space c h.0.0, h.0.0, word_at-AreAlnum w x t h.0.1 q, short (length w) h.1) refl
  where
    short : (n : ℕ) → suc n < maxtokenlen → ltb (suc n) maxtokenlen ≡ true
    short n h = ground arith

word_token-input :
    (w u t : List ℕ) (r : Reader) → word_token w u r ≡ word_token w u (record r { input = t })
unfolding word_token
word_token-input w u t r = by_length (ltb (length w) maxtokenlen) refl
  where
    by_length :
        (b : Bool)
        → ltb (length w) maxtokenlen ≡ b
        → word_token w u r ≡ word_token w u (record r { input = t })
    by_length true e = rw (word_token, e) refl
    by_length false e = rw (word_token, e) refl

token_from-input :
    (c : ℕ) (u t : List ℕ) (r : Reader) → token_from c u r ≡ token_from c u (record r { input = t })
unfolding token_from
token_from-input c u t r = by_alnum (isalnum c) refl
  where
    by_alnum :
        (b : Bool) → isalnum c ≡ b → token_from c u r ≡ token_from c u (record r { input = t })
    by_alnum true e = rw (token_from, e) (word_token-input (c ∷ (word_at u).0) (word_at u).1 t r)
    by_alnum false e = rw (token_from, e) refl

-- A space before a token is passed over.
pub gettoken-space :
    (t : List ℕ) (r : Reader) → r.input ≡ 32 ∷ t → gettoken r ≡ gettoken (record r { input = t })
unfolding gettoken after_spaces
gettoken-space t r e =
    ap (λ i. token_from (after_spaces i).0 (after_spaces i).1 r) e
    ∙ token_from-input (after_spaces t).0 (after_spaces t).1 t r
