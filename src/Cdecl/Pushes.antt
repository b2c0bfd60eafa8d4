-- ===== src/Cdecl/Pushes.antt =====
-- What `initial` of c_code/expert_c/cdecl2.c pushes.
use somenote.Common.{
  ℕ, suc, ◌+◌, ◌≤◌, ◌<◌, ◌≡◌, refl, ap, ◌∙◌, true, false, List, [], ◌∷◌, ◌++◌, ◌==◌, ltb, length,
  map, length-append, length-map, arith,
}
use somenote.Libc.Effect.{ok, and_then}
use somenote.Libc.Returns.{chosen}
use somenote.Cdecl.Token.{maxtokens, identifier, Token, Reader, isalnum, classify_string, gettoken}
use somenote.Cdecl.States.{push, push_loop, to_name}
use somenote.Cdecl.Phrases.{IsWord, Piece, star_piece, bracket, word, piece_text, before}
use somenote.Cdecl.Reads.{symbol, gettoken-symbol, gettoken-word, gettoken-space}

abbrev pub token_of : Piece → Token
token_of star_piece = symbol b'*'
token_of bracket = symbol b'('
token_of (word w) = classify_string w

-- A piece that is pushed: no identifier.
abbrev IsPiece : Piece → Type 0
IsPiece star_piece = Unit {0}
IsPiece bracket = Unit {0}
IsPiece (word w) = IsWord w × (((classify_string w).type == identifier) ≡ false)

abbrev pub ArePieces : List Piece → Type 0
ArePieces [] = Unit {0}
ArePieces (p ∷ ps) = IsPiece p × ArePieces ps

gettoken-piece :
    (p : Piece) (t : List ℕ) (r : Reader)
    → IsPiece p
    → r.input ≡ piece_text p t
    → gettoken r ≡ ok tt (record r { input = 32 ∷ t; this = token_of p })
unfolding isalnum
gettoken-piece star_piece t r h e = gettoken-symbol b'*' (32 ∷ t) r (refl, refl, refl) e
gettoken-piece bracket t r h e = gettoken-symbol b'(' (32 ∷ t) r (refl, refl, refl) e
gettoken-piece (word w) t r h e = gettoken-word w 32 t r h.0 (refl, refl) e

not_name : (p : Piece) → IsPiece p → ((token_of p).type == identifier) ≡ false
not_name star_piece h = refl
not_name bracket h = refl
not_name (word w) h = h.1

pub push_next :
    (f : ℕ) (s : Reader)
    → (s.this.type == identifier) ≡ false
    → length s.stack < maxtokens
    → push_loop (suc f) s ≡ to_name f (record s { stack = s.this ∷ s.stack })
unfolding push_loop push
push_next f s h room =
    chosen (s.this.type == identifier) _ _ s h ∙ rw (roomy (length s.stack) room) refl
  where
    roomy : (n : ℕ) → n < maxtokens → ltb n maxtokens ≡ true
    roomy n h = ground arith

push_one :
    (f : ℕ) (p : Piece) (t : List ℕ) (r : Reader)
    → IsPiece p
    → length r.stack < maxtokens
    → r.input ≡ piece_text p t
    → to_name (suc f) r
      ≡ to_name f (record r { input = t; this = token_of p; stack = token_of p ∷ r.stack })
push_one f p t r h room e =
    ap (λ q. and_then q (λ _. push_loop (suc f))) (gettoken-piece p t r h e)
    ∙ push_next f (record r { input = 32 ∷ t; this = token_of p }) (not_name p h) room
    ∙ ap (λ q. and_then q (λ _. push_loop f))
        (gettoken-space t
          (record r { input = 32 ∷ t; this = token_of p; stack = token_of p ∷ r.stack }) refl)

-- The pieces before a text are pushed, the nearest last.
pub push_all :
    (f : ℕ) (ps : List Piece) (t : List ℕ) (r : Reader)
    → ArePieces ps
    → length ps + length r.stack ≤ maxtokens
    → r.input ≡ before ps t
    → (k : Token) × (to_name (length ps + f) r
        ≡ to_name f (record r { input = t; this = k; stack = map token_of ps ++ r.stack }))
push_all f [] t r h room e =
    let z : 0 + f ≡ f = omega arith in
    (r.this, rw z (ap (λ i. to_name f (record r { input = i })) e))
push_all f (p ∷ ps) t r h room e =
    let (k, q) = push_all (suc f) ps (piece_text p t) r h.1 (omega (arith, room)) e in
    let z : suc (length ps) + f ≡ length ps + suc f = omega arith in
    let l : length (map token_of ps ++ r.stack) ≡ length ps + length r.stack =
      length-append (map token_of ps) r.stack
      ∙ ap (λ n. n + length r.stack) (length-map token_of ps) in
    let s₁ = record r { input = piece_text p t; this = k; stack = map token_of ps ++ r.stack } in
    (token_of p, ap (λ n. to_name n r) z ∙ q ∙ push_one f p t s₁ h.0 (omega (arith, l, room)) refl)
