-- ===== src/Cvm/State/Keeps.antt =====
-- Commands that leave the input of c_code/cvm/cvm.c as it is.
use somenote.Common.{
  ℕ, ◌≡◌, refl, subst, Bool, true, false, Option, none, some, List, if◌then◌else◌,
}
use somenote.Libc.Effect.{
  Run, ok, overflow, undefined, blocked, quit, out_of_fuel, Cmd, pure, and_then, ◌>>=◌, ◌>>◌, get,
  modify, need, fit,
}
use somenote.Cvm.State.{Vm, on_world, ask_world, set_file, set_cmd, print, answer}

module _ {W : Type 0} where
  -- What is left of the input, if the call returns.
  abbrev pub KeepsInput : {A : Type 0} → List ℕ → Run (Vm W) A → Type 0
  KeepsInput i (ok a s) = s.input ≡ i
  KeepsInput i overflow = Unit {0}
  KeepsInput i undefined = Unit {0}
  KeepsInput i blocked = Unit {0}
  KeepsInput i (quit t) = Unit {0}
  KeepsInput i out_of_fuel = Unit {0}

-- A command that, if it returns, has not touched the input.
pub record Keeps {W A : Type 0} (m : Cmd (Vm W) A) : Type 0 where
  pub kept : (s : Vm W) → KeepsInput s.input (m s)

-- By what each call leaves.
pub keeps : {W A : Type 0} {m : Cmd (Vm W) A} → ((s : Vm W) → KeepsInput s.input (m s)) → Keeps m
keeps h = record { kept = h }

module _ {W : Type 0} where
  and_then-Keeps :
      {A B : Type 0} (i : List ℕ) (q : Run (Vm W) A) (f : A → Cmd (Vm W) B)
      → KeepsInput i q
      → ((a : A) (s : Vm W) → KeepsInput s.input (f a s))
      → KeepsInput i (and_then q f)
  and_then-Keeps i (ok a s) f k h = subst (λ j. KeepsInput j (f a s)) k (h a s)
  and_then-Keeps i overflow f k h = tt
  and_then-Keeps i undefined f k h = tt
  and_then-Keeps i blocked f k h = tt
  and_then-Keeps i (quit t) f k h = tt
  and_then-Keeps i out_of_fuel f k h = tt

  pub bind-Keeps :
      {A B : Type 0} {m : Cmd (Vm W) A} {f : A → Cmd (Vm W) B}
      → Keeps m
      → ((a : A) → Keeps (f a))
      → Keeps (m >>= f)
  bind-Keeps {m} {f} k h = keeps λ s. and_then-Keeps s.input (m s) f (k.kept s) (λ a. (h a).kept)

  pub then-Keeps :
      {B : Type 0} {m : Cmd (Vm W) (Unit {0})} {k : Cmd (Vm W) B}
      → Keeps m
      → Keeps k
      → Keeps (m >> k)
  then-Keeps {m} {k} h h' =
      keeps λ s. and_then-Keeps s.input (m s) (λ _. k) (h.kept s) (λ _. h'.kept)

  pub if-Keeps :
      {A : Type 0} (b : Bool) {m n : Cmd (Vm W) A} → Keeps m → Keeps n → Keeps (if b then m else n)
  if-Keeps true h h' = h
  if-Keeps false h h' = h'

  pub pure-Keeps : {A : Type 0} (a : A) → Keeps {W = W} (pure a)
  pure-Keeps a = keeps λ s. refl

  pub get-Keeps : Keeps {W = W} get
  get-Keeps = keeps λ s. refl

  pub need-Keeps : {A : Type 0} (a : Option A) → Keeps {W = W} (need a)
  need-Keeps none = keeps λ s. tt
  need-Keeps (some a) = keeps λ s. refl

  pub fit-Keeps : (b : Bool) → Keeps {W = W} (fit b)
  fit-Keeps true = keeps λ s. refl
  fit-Keeps false = keeps λ s. tt

  pub on_world-Keeps : (f : W → W) → Keeps {W = W} (on_world f)
  on_world-Keeps f = keeps λ s. refl

  pub ask_world-Keeps : {A : Type 0} (f : W → A × W) → Keeps {W = W} (ask_world f)
  ask_world-Keeps f = keeps λ s. refl

  pub set_result-Keeps : (t : List ℕ) → Keeps {W = W} (modify λ s. record s { result = t })
  set_result-Keeps t = keeps λ s. refl

  put_file-Keeps : (t : List ℕ) → Keeps {W = W} (modify λ s. record s { file = t })
  put_file-Keeps t = keeps λ s. refl

  put_cmd-Keeps : (t : List ℕ) → Keeps {W = W} (modify λ s. record s { cmd = t })
  put_cmd-Keeps t = keeps λ s. refl

  pub set_file-Keeps : (t : List ℕ) → Keeps {W = W} (set_file t)
  unfolding set_file
  set_file-Keeps t = search (then-Keeps, fit-Keeps, put_file-Keeps)

  pub set_cmd-Keeps : (t : List ℕ) → Keeps {W = W} (set_cmd t)
  unfolding set_cmd
  set_cmd-Keeps t = search (then-Keeps, fit-Keeps, put_cmd-Keeps)

  pub print-Keeps : (t : List ℕ) → Keeps {W = W} (print t)
  unfolding print
  print-Keeps t = keeps λ s. refl

  pub answer-Keeps : (b : Bool) → Keeps {W = W} (answer b)
  unfolding answer print
  answer-Keeps true = keeps λ s. refl
  answer-Keeps false = keeps λ s. refl

pub ruleset keep_rules = (
  bind-Keeps, then-Keeps, if-Keeps, pure-Keeps, get-Keeps, need-Keeps, fit-Keeps, on_world-Keeps,
  ask_world-Keeps, set_result-Keeps, set_file-Keeps, set_cmd-Keeps, print-Keeps, answer-Keeps,
)
