-- ===== src/Cdecl/Unnamed.antt =====
-- What c_code/expert_c/cdecl2.c does on an input without a name.
use somenote.Common.{
  ℕ, zero, suc, ◌+◌, ◌-◌, ◌≤◌, ◌<◌, ◌≡◌, refl, ap, ◌∙◌, false, List, [], ◌∷◌, ◌++◌, ◌==◌, ltb,
  length, map, append-nil, inl, inr, length-map, arith,
}
use somenote.Libc.Effect.{ok, overflow, and_then}
use somenote.Libc.Decimal.RoundTrip.{lt_or_ge}
use somenote.Libc.Returns.{chosen}
use somenote.Cdecl.Token.{
  maxtokens, identifier, end_of_input, Reader, isalnum, after_spaces, token_from, gettoken,
}
use somenote.Cdecl.States.{
  is_null, push, push_loop, to_name, run_initial, run_state, state_loop, main,
}
use somenote.Cdecl.Phrases.{Piece, before}
use somenote.Cdecl.Reads.{symbol}
use somenote.Cdecl.Pushes.{token_of, ArePieces, push_next, push_all}

gettoken-end :
    (r : Reader)
    → r.input ≡ []
    → gettoken r ≡ ok tt (record r { input = []; this = symbol end_of_input })
unfolding gettoken after_spaces token_from isalnum
gettoken-end r e = rw e refl

push_loop-full :
    (f : ℕ) (r : Reader)
    → (r.this.type == identifier) ≡ false
    → maxtokens ≤ length r.stack
    → push_loop (suc f) r ≡ overflow
unfolding push_loop push
push_loop-full f r h full =
    chosen (r.this.type == identifier) _ _ r h ∙ rw (no_room (length r.stack) full) refl
  where
    no_room : (n : ℕ) → maxtokens ≤ n → ltb n maxtokens ≡ false
    no_room n h = ground arith

-- At the end of the input the end is pushed until the stack is full.
to_name-end :
    (f : ℕ) (r : Reader)
    → r.input ≡ []
    → length r.stack ≤ maxtokens
    → maxtokens < f + length r.stack
    → to_name f r ≡ overflow
to_name-end zero r e room g = absurd (omega arith)
to_name-end (suc f) r e room g =
    let s = record r { input = []; this = symbol end_of_input } in
    ap (λ m. and_then m (λ _. push_loop (suc f))) (gettoken-end r e)
    ∙ elim (lt_or_ge (length r.stack) maxtokens) [
      | inl less ↦
          push_next f s refl less
          ∙ to_name-end f (record s { stack = symbol end_of_input ∷ r.stack }) refl
              (omega (arith, less)) (omega (arith, g))
      | inr full ↦ push_loop-full f s refl full
    ]

-- For an input of no more than 100 pieces, each with a space behind it, and no name behind
-- them, with more rounds than 101 for the inner loop and one for its own, main goes on
-- pushing the end of the input and writes past the stack.
pub main-unnamed :
    (g f : ℕ) (ps : List Piece) (r : Reader)
    → ArePieces ps
    → length ps ≤ maxtokens
    → suc maxtokens < f
    → r.stack ≡ []
    → r.input ≡ before ps []
    → main (suc g) f r ≡ overflow
unfolding main state_loop is_null run_state run_initial
main-unnamed g f ps r h room fuel k e =
    let (t, p) = push_all (f - length ps) ps [] r h (omega (arith, room, ap length k)) e in
    let z : f ≡ length ps + (f - length ps) = omega (arith, room, fuel) in
    let r₁ = record r { input = []; this = t; stack = map token_of ps ++ r.stack } in
    let l : length (map token_of ps ++ r.stack) ≡ length ps =
      ap (λ s. length (map token_of ps ++ s)) k
      ∙ ap length (append-nil (map token_of ps))
      ∙ length-map token_of ps in
    let full : to_name f r ≡ overflow =
      ap (λ n. to_name n r) z
      ∙ p
      ∙ to_name-end (f - length ps) r₁ refl (omega (arith, l, room))
          (omega (arith, l, room, fuel)) in
    rw full refl
