-- ===== src/Libc/Returns.antt =====
-- Calls that return: what holds of the result and the state behind them.
use somenote.Common.{Bool, true, false, ◌≡◌, refl}
use somenote.Libc.Effect.{Run, ok, overflow, undefined, blocked, quit, out_of_fuel, Cmd, and_then}

module _ {S A : Type 0} where
  -- The branch of a choice.
  pub chosen :
      (b : Bool) (m n : Cmd S A) (s : S)
      → b ≡ false
      → (elim b as (λ _. Cmd S A) [ true ↦ m | false ↦ n ]) s ≡ n s
  chosen true m n s h = absurd cc
  chosen false m n s h = refl

  pub chosen_first :
      (b : Bool) (m n : Cmd S A) (s : S)
      → b ≡ true
      → (elim b as (λ _. Cmd S A) [ true ↦ m | false ↦ n ]) s ≡ m s
  chosen_first true m n s h = refl
  chosen_first false m n s h = absurd cc

  -- The call returns, and `Q` holds of its result and of the state behind it.
  abbrev pub Returns : (A → S → Type 0) → Run S A → Type 0
  Returns Q (ok a s) = Q a s
  Returns Q overflow = ⊥
  Returns Q undefined = ⊥
  Returns Q blocked = ⊥
  Returns Q (quit t) = ⊥
  Returns Q out_of_fuel = ⊥

  pub Returns-mono :
      (Q R : A → S → Type 0) (r : Run S A)
      → Returns Q r
      → ((a : A) (s : S) → Q a s → R a s)
      → Returns R r
  Returns-mono Q R (ok a s) h g = g a s h
  Returns-mono Q R overflow h g = h
  Returns-mono Q R undefined h g = h
  Returns-mono Q R blocked h g = h
  Returns-mono Q R (quit t) h g = h
  Returns-mono Q R out_of_fuel h g = h

  -- A choice, where each branch returns.
  pub branch-Returns :
      (Q : A → S → Type 0) (b : Bool) (m n : Cmd S A) (s : S)
      → (b ≡ true → Returns Q (m s))
      → (b ≡ false → Returns Q (n s))
      → Returns Q ((elim b as (λ _. Cmd S A) [ true ↦ m | false ↦ n ]) s)
  branch-Returns Q true m n s h g = h refl
  branch-Returns Q false m n s h g = g refl

module _ {S A B : Type 0} where
  pub and_then-Returns :
      (Q : A → S → Type 0) (R : B → S → Type 0) (r : Run S A) (f : A → Cmd S B)
      → Returns Q r
      → ((a : A) (s : S) → Q a s → Returns R (f a s))
      → Returns R (and_then r f)
  and_then-Returns Q R (ok a s) f h g = g a s h
  and_then-Returns Q R overflow f h g = absurd h
  and_then-Returns Q R undefined f h g = absurd h
  and_then-Returns Q R blocked f h g = absurd h
  and_then-Returns Q R (quit t) f h g = absurd h
  and_then-Returns Q R out_of_fuel f h g = absurd h
