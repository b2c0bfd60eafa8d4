-- ===== src/Cdecl/Suffixes.antt =====
-- What `get_array` of c_code/expert_c/cdecl2.c says of dimensions.
use somenote.Common.{
  ℕ, zero, suc, ◌<◌, ◌≡◌, refl, sym, ap, ap₂, ◌∙◌, true, false, List, [], ◌∷◌, ◌++◌, ◌==◌, Option,
  none, some, ◌^◌, length, get_or, drop, append_assoc, append-nil, arith,
}
use somenote.Libc.Int.{pos}
use somenote.Libc.Text.{codes}
use somenote.Libc.Decimal.{decimal, atol}
use somenote.Libc.Effect.{Run, ok, and_then}
use somenote.Libc.Returns.{chosen, chosen_first}
use somenote.Cdecl.Token.{Token, Reader, isalnum, gettoken}
use somenote.Cdecl.States.{
  State, get_lparen, is_number, bound_text, print_bound, one_array, array_loop,
}
use somenote.Cdecl.Phrases.{AreDimensions, dimensions, say_dimensions}
use somenote.Cdecl.Reads.{IsSymbol, symbol, gettoken-symbol, gettoken-word}
use somenote.Cdecl.Numbers.{decimal-IsRead, atol-number}

print_bound-none : (r : Reader) → is_number r.this ≡ false → print_bound r ≡ ok tt r
unfolding print_bound
print_bound-none r h = chosen (is_number r.this) _ _ r h

one_array-none :
    (x : ℕ) (u : List ℕ) (r : Reader)
    → IsSymbol x
    → r.input ≡ b']' ∷ x ∷ u
    → one_array r
      ≡ ok tt (record r {
        this = symbol x;
        input = u;
        output = (r.output ++ codes "array ") ++ codes "of ";
      })
unfolding one_array isalnum is_number
one_array-none x u r h e =
    rw
      (
        gettoken-symbol b']' (x ∷ u) (record r { output = r.output ++ codes "array " })
            (refl, refl, refl) e,
        print_bound-none
            (record r { output = r.output ++ codes "array "; input = x ∷ u; this = symbol b']' })
            refl,
        gettoken-symbol x u
            (record r { output = r.output ++ codes "array "; input = x ∷ u; this = symbol b']' }) h
            refl,
      )
      refl

-- The token of a number.
abbrev number : ℕ → Token
number n = record { type = 0; string = decimal n }

decimal-is_number : (n : ℕ) → n < 2 ^ 31 → is_number (number n) ≡ true
unfolding is_number
decimal-is_number n small =
    let (word, k, _, (c, s, w, d)) = decimal-IsRead n small in
    ap (λ w. is_number (record { type = 0; string = w })) w ∙ d

print_bound-number :
    (n : ℕ) (t : List ℕ) (r : Reader)
    → n < 2 ^ 31
    → r.this ≡ number n
    → r.input ≡ b']' ∷ t
    → print_bound r
      ≡ ok tt (record r { input = t; this = symbol b']'; output = r.output ++ bound_text (pos n) })
unfolding print_bound isalnum
print_bound-number n t r small k e =
    chosen_first (is_number r.this) _ _ r (ap is_number k ∙ decimal-is_number n small)
    ∙ gettoken-symbol b']' t (record r { output = r.output ++ bound_text (atol r.this.string) })
        (refl, refl, refl) e
    ∙ ap
        (λ z. ok tt (record r { input = t; this = symbol b']'; output = r.output ++ bound_text z }))
        (ap (λ (q : Token). atol q.string) k ∙ atol-number n small)

one_array-some :
    (n x : ℕ) (u : List ℕ) (r : Reader)
    → n < 2 ^ 31
    → IsSymbol x
    → r.input ≡ decimal n ++ b']' ∷ x ∷ u
    → one_array r
      ≡ ok tt (record r {
        this = symbol x;
        input = u;
        output = ((r.output ++ codes "array ") ++ bound_text (pos n)) ++ codes "of ";
      })
unfolding one_array isalnum
one_array-some n x u r small h e =
    let (word, k, _, _) = decimal-IsRead n small in
    let r₁ = record r { output = r.output ++ codes "array " } in
    let r₂ = record r₁ { input = b']' ∷ x ∷ u; this = number n } in
    let r₃ = record r₂ {
      input = x ∷ u;
      this = symbol b']';
      output = r₁.output ++ bound_text (pos n);
    } in
    let a : gettoken r₁ ≡ ok tt r₂ =
      gettoken-word (decimal n) b']' (x ∷ u) r₁ word (refl, refl) e
      ∙ ap (λ k. ok tt (record r₁ { input = b']' ∷ x ∷ u; this = k })) k in
    rw (a, print_bound-number n (x ∷ u) r₂ small refl refl, gettoken-symbol x u r₃ h refl) refl

-- Where dimensions begin, or what follows them, there is a symbol.
pub first-IsSymbol :
    (ds : List (Option ℕ)) (y : ℕ) (v : List ℕ)
    → IsSymbol y
    → (x : ℕ) × (u : List ℕ) × (dimensions ds (y ∷ v) ≡ x ∷ u) × IsSymbol x
unfolding isalnum
first-IsSymbol [] y v h = (y, v, refl, h)
first-IsSymbol (none ∷ ds) y v h = (b'[', _, refl, (refl, refl, refl))
first-IsSymbol (some n ∷ ds) y v h = (b'[', _, refl, (refl, refl, refl))

-- The state behind `get_array`.
abbrev after_arrays : List (Option ℕ) → State → State
after_arrays [] next = next
after_arrays (d ∷ ds) next = get_lparen

array_loop-next :
    (f : ℕ) (next : State) (r r' : Reader)
    → r.this ≡ symbol b'['
    → one_array r ≡ ok tt r'
    → array_loop (suc f) next r ≡ array_loop f get_lparen r'
unfolding array_loop
array_loop-next f next r r' k e =
    chosen_first (r.this.type == b'[') _ _ r (ap (λ (q : Token). q.type == b'[') k)
    ∙ ap (λ q. and_then q (λ _. array_loop f get_lparen)) e

after-get_lparen : (ds : List (Option ℕ)) → after_arrays ds get_lparen ≡ get_lparen
after-get_lparen [] = refl
after-get_lparen (d ∷ ds) = refl

said :
    (r : Reader) (y : ℕ) (v : List ℕ) {st st' : State} {o o' : List ℕ}
    → st ≡ st'
    → o ≡ o'
    → ◌≡◌ {A = Run Reader State}
        (ok st (record r { this = symbol y; input = v; output = o }))
        (ok st' (record r { this = symbol y; input = v; output = o' }))
said r y v p q = ap₂ (λ st o. ok st (record r { this = symbol y; input = v; output = o })) p q

-- The parts of equal lists.
pub hd : {x y : ℕ} {a b : List ℕ} → x ∷ a ≡ y ∷ b → x ≡ y
hd e = ap (λ l. get_or l 0 0) e

tl : {x y : ℕ} {a b : List ℕ} → x ∷ a ≡ y ∷ b → a ≡ b
tl e = ap (drop 1) e

pub array_loop-dimensions :
    (f : ℕ) (ds : List (Option ℕ)) (y : ℕ) (v : List ℕ) (next : State) (x : ℕ) (r : Reader)
    → IsSymbol y
    → (y == b'[') ≡ false
    → AreDimensions ds
    → length ds < f
    → r.this ≡ symbol x
    → x ∷ r.input ≡ dimensions ds (y ∷ v)
    → array_loop f next r
      ≡ ok
          (after_arrays ds next)
          (record r { this = symbol y; input = v; output = r.output ++ say_dimensions ds })
unfolding array_loop
array_loop-dimensions zero ds y v next x r h n a g k e = absurd (omega arith)
array_loop-dimensions (suc f) [] y v next x r h n a g k e =
    let c : r.this ≡ symbol y = k ∙ ap symbol (hd e) in
    chosen (r.this.type == b'[') _ _ r (ap (λ (q : Token). q.type == b'[') c ∙ n)
    ∙ ap (λ q. ok next (record r { this = q })) c
    ∙ ap₂ (λ i o. ok next (record r { this = symbol y; input = i; output = o })) (tl e)
        (sym (append-nil r.output))
array_loop-dimensions (suc f) (none ∷ ds) y v next x r h n a g k e =
    let (x', u, e', h') = first-IsSymbol ds y v h in
    let o = (r.output ++ codes "array ") ++ codes "of " in
    let r₁ = record r { this = symbol x'; input = u; output = o } in
    array_loop-next f next r r₁ (k ∙ ap symbol (hd e))
      (one_array-none x' u r h' (tl e ∙ ap (λ t. b']' ∷ t) e'))
    ∙ array_loop-dimensions f ds y v get_lparen x' r₁ h n a (omega (arith, g)) refl (sym e')
    ∙ said r y v (after-get_lparen ds) (simp append_assoc)
array_loop-dimensions (suc f) (some m ∷ ds) y v next x r h n a g k e =
    let (x', u, e', h') = first-IsSymbol ds y v h in
    let o = ((r.output ++ codes "array ") ++ bound_text (pos m)) ++ codes "of " in
    let r₁ = record r { this = symbol x'; input = u; output = o } in
    array_loop-next f next r r₁ (k ∙ ap symbol (hd e))
      (one_array-some m x' u r a.0 h' (tl e ∙ ap (λ t. decimal m ++ b']' ∷ t) e'))
    ∙ array_loop-dimensions f ds y v get_lparen x' r₁ h n a.1 (omega (arith, g)) refl (sym e')
    ∙ said r y v (after-get_lparen ds) (simp append_assoc)
