-- ===== src/Libc/Effect.antt =====
-- Programs with a state: how a call ends, and the sequence of calls.
use somenote.Common.{ℕ, List, Bool, true, false, Option, none, some}

-- A call returns with the state behind it; or it writes past a buffer, reads what is not there (a
-- null pointer, a value never set, a place before a buffer), waits for ever, ends the process with a
-- message, or uses up the rounds that the model gives its loops.
pub data Run (S A : Type 0) : Type 0 where
  ok : A → S → Run S A
  overflow : Run S A
  undefined : Run S A
  blocked : Run S A
  quit : List ℕ → Run S A
  out_of_fuel : Run S A

abbrev pub Cmd : Type 0 → Type 0 → Type 0
Cmd S A = S → Run S A

abbrev pub pure : {S A : Type 0} → A → Cmd S A
pure a s = ok a s

abbrev pub and_then : {S A B : Type 0} → Run S A → (A → Cmd S B) → Run S B
and_then (ok a s) f = f a s
and_then overflow f = overflow
and_then undefined f = undefined
and_then blocked f = blocked
and_then (quit t) f = quit t
and_then out_of_fuel f = out_of_fuel

infixl 5 ◌>>=◌ ◌>>◌
abbrev pub ◌>>=◌ : {S A B : Type 0} → Cmd S A → (A → Cmd S B) → Cmd S B
◌>>=◌ m f s = and_then (m s) f

abbrev pub ◌>>◌ : {S B : Type 0} → Cmd S (Unit {0}) → Cmd S B → Cmd S B
◌>>◌ m k s = and_then (m s) (λ _. k)

abbrev pub get : {S : Type 0} → Cmd S S
get s = ok s s

abbrev pub modify : {S : Type 0} → (S → S) → Cmd S (Unit {0})
modify f s = ok tt (f s)

-- A pointer that must not be NULL, or a value that must have been set.
abbrev pub need : {S A : Type 0} → Option A → Cmd S A
need none s = undefined
need (some a) s = ok a s

-- A write that must fit.
abbrev pub fit : {S : Type 0} → Bool → Cmd S (Unit {0})
fit true s = ok tt s
fit false s = overflow
