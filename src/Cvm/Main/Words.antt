-- ===== src/Cvm/Main/Words.antt =====
-- The choice of a command by its word in `main` of c_code/cvm/cvm.c.
use somenote.Common.{
  ℕ, zero, suc, ◌<◌, ◌≡◌, refl, sym, ap, ◌∙◌, Bool, true, false, ◌&&◌, not, none, some, List, [],
  ◌∷◌, ◌++◌, length, arith, Bool-cases, inl, inr, ◌==◌,
}
use somenote.Libc.Text.{same_text, same_text_refl, NoNull, text_self}
use somenote.Libc.Decimal.{is_space}
use somenote.Libc.Scan.RoundTrip.{NoSpace, word-NoSpace, skip_space-NoSpace}
use somenote.Libc.Effect.{ok, Cmd}
use somenote.Cvm.State.{Host, Vm, fits, read_word}
use somenote.Cvm.Main.{pick_from, commands, dispatch, main}

-- A word that fits into the buffer of the command.
abbrev pub IsWord : List ℕ → Type 0
IsWord [] = ⊥
IsWord (c ∷ w) = NoSpace (c ∷ w) × NoNull (c ∷ w) × (length (c ∷ w) < 1024)

not_zero : (n : ℕ) → (suc n == 0) ≡ false
not_zero n = ground arith

short : (w : List ℕ) → length w < 1024 → fits 1024 w ≡ true
short w h = ground arith

both : (a b : Bool) → (a && b) ≡ true → (a ≡ true) × (b ≡ true)
both true b h = (refl, h)
both false b h = absurd cc

not-true : (a : Bool) → not a ≡ true → a ≡ false
not-true true h = sym h
not-true false h = refl

some_eq : {A : Type 0} {x y : A} → some x ≡ some y → x ≡ y
some_eq e = cc

module _ {S : Type 0} where
  abbrev apart : List ℕ → List (List ℕ × Cmd S (Unit {0})) → Bool
  apart m [] = true
  apart m ((w, b) ∷ rest) = not (same_text w m) && apart m rest

  -- No word occurs twice.
  abbrev distinct : List (List ℕ × Cmd S (Unit {0})) → Bool
  distinct [] = true
  distinct ((m, b) ∷ rest) = apart m rest && distinct rest

  apart-pick :
      (m w : List ℕ) (act : Cmd S (Unit {0})) (l : List (List ℕ × Cmd S (Unit {0}))) (n : ℕ)
      → apart m l ≡ true
      → pick_from l n ≡ some (w, act)
      → same_text w m ≡ false
  unfolding pick_from
  apart-pick m w act [] n h e = cc
  apart-pick m w act ((v, b) ∷ l) zero h e = cc
  apart-pick m w act ((v, b) ∷ l) (suc n) h e =
      let (here, rest) = both (not (same_text v m)) (apart m l) h in
      elim (Bool-cases (n == 0)) [
        | inl first ↦
            let e' : (v, b) ≡ (w, act) = some_eq (rw first at e) in
            ap (λ (p : List ℕ × Cmd S (Unit {0})). same_text p.0 m) (sym e')
            ∙ not-true (same_text v m) here
        | inr later ↦ apart-pick m w act l n rest (rw later at e)
      ]

  dispatch-pick :
      (w : List ℕ) (act : Cmd S (Unit {0})) (l : List (List ℕ × Cmd S (Unit {0}))) (n : ℕ)
      → distinct l ≡ true
      → pick_from l n ≡ some (w, act)
      → dispatch l w ≡ act
  unfolding pick_from dispatch
  dispatch-pick w act [] n h e = cc
  dispatch-pick w act ((v, b) ∷ l) zero h e = cc
  dispatch-pick w act ((v, b) ∷ l) (suc n) h e =
      let (here, rest) = both (apart v l) (distinct l) h in
      elim (Bool-cases (n == 0)) [
        | inl first ↦
            let e' : (v, b) ≡ (w, act) = some_eq (rw first at e) in
            let k : same_text w v ≡ true =
              ap (λ (p : List ℕ × Cmd S (Unit {0})). same_text w p.0) e' ∙ same_text_refl w in
            rw k (ap (λ (p : List ℕ × Cmd S (Unit {0})). p.1) e')
        | inr later ↦
            let e' : pick_from l n ≡ some (w, act) = rw later at e in
            rw (apart-pick v w act l n here e') (dispatch-pick w act l n rest e')
      ]

commands-distinct :
    {W : Type 0} (host : Host W) (f : ℕ) → distinct (commands ⦃host = host⦄ f) ≡ true
unfolding commands same_text
commands-distinct host f = refl

module _ {W : Type 0} ⦃host : Host W⦄ where
  read_word-IsWord :
      (w : List ℕ) (c : ℕ) (r : List ℕ) (s : Vm W)
      → IsWord w
      → is_space c ≡ true
      → s.input ≡ w ++ c ∷ r
      → read_word 1024 none s ≡ ok w (record s { input = c ∷ r })
  unfolding read_word
  read_word-IsWord [] c r s h k e = absurd h
  read_word-IsWord (d ∷ w) c r s h k e =
      rw
        (
          e,
          skip_space-NoSpace d w (c ∷ r) h.0,
          word-NoSpace (d ∷ w) c r h.0 k,
          not_zero (length w),
          short (d ∷ w) h.2,
          text_self (d ∷ w) h.1,
        )
        refl

  -- The word of a command picks it.
  pub main-word :
      (f n : ℕ) (w : List ℕ) (act : Cmd (Vm W) (Unit {0})) (c : ℕ) (r : List ℕ) (s : Vm W)
      → pick_from (commands f) n ≡ some (w, act)
      → IsWord w
      → is_space c ≡ true
      → s.input ≡ w ++ c ∷ r
      → main f s ≡ act (record s { input = c ∷ r })
  unfolding main
  main-word f n w act c r s p h k e = rw (read_word-IsWord w c r s h k e) (
      ap (λ m. m (record s { input = c ∷ r }))
        (dispatch-pick w act (commands f) n (commands-distinct host f) p))
