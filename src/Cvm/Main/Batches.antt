-- ===== src/Cvm/Main/Batches.antt =====
-- Runs of c_code/cvm/cvm.c whose command is done on several machines.
use somenote.Common.{ℕ, ◌<◌, ◌≡◌, refl, ◌∙◌, List, [], ◌∷◌, ◌++◌, length, arith, none}
use somenote.Libc.Int.{ℤ, pos}
use somenote.Libc.Text.{codes}
use somenote.Libc.Decimal.RoundTrip.{Stops}
use somenote.Libc.Scan.{show_int}
use somenote.Libc.Scan.RoundTrip.{IsInt}
use somenote.Libc.Effect.{Cmd}
use somenote.Cvm.State.{Host, Vm}
use somenote.Cvm.Host.Results.{AlwaysLogs}
use somenote.Cvm.Machine.{vmdel, vmoff, vmhalt, vmreset, vmstop, vmcontinue}
use somenote.Cvm.Power.{
  addvm, answered, status_of, ppower_status, ppower_on, ppower_off, ppower_halt, ppower_reset,
  ppower_stop, ppower_continue,
}
use somenote.Cvm.Power.Batch.{numbers, numbers-Stops, AreIds, served, read_int-line}
use somenote.Cvm.Power.Batch.Answers.{AnswersEach, addvm-answers}
use somenote.Cvm.Power.Batch.Commands.{batches-served}
use somenote.Cvm.Main.{pick_from, commands, main, numbered, choose, ppower}
use somenote.Cvm.Main.Words.{IsWord, main-word}
use somenote.Cvm.Main.Runs.{behind_delvm}

addvm-IsWord : IsWord (codes "addvm")
addvm-IsWord = grind arith

ppower-IsWord : IsWord (codes "ppower")
ppower-IsWord = grind arith

-- The input of `ppower`: the number of what is to be done, and the numbers of the machines.
abbrev ppower_input : ℕ → List ℤ → List ℕ → List ℕ
ppower_input k zs r = codes "ppower" ++ 10 ∷ (show_int (pos k) ++ numbers zs r)

abbrev with_input : {W : Type 0} → List ℕ → Vm W → Vm W
with_input i s = record s { input = i }

-- The input of the state does not matter.
served_input :
    {W : Type 0} (op : ℤ → Cmd (Vm W) (Unit {0})) (zs : List ℤ) (r i : List ℕ) (s : Vm W)
    → served op zs r (with_input i s) ≡ served op zs r s
served_input op [] r i s = refl
served_input op (z ∷ zs) r i s = refl

module _ {W : Type 0} ⦃host : Host W⦄ where
  -- What is done on each machine, by what the input says.
  abbrev pub RunsEach : ℕ → List ℤ → List ℕ → Vm W → Type 0
  RunsEach f zs r s =
      (main f (with_input (codes "delvm" ++ numbers zs r) s) ≡ served (answered vmdel) zs r s)
      × (main f (with_input (ppower_input 1 zs r) s) ≡ served status_of zs r s)
      × (main f (with_input (ppower_input 3 zs r) s) ≡ served (answered vmoff) zs r s)
      × (main f (with_input (ppower_input 4 zs r) s) ≡ served (answered vmreset) zs r s)
      × (main f (with_input (ppower_input 5 zs r) s) ≡ served (answered vmstop) zs r s)
      × (main f (with_input (ppower_input 6 zs r) s) ≡ served (answered vmcontinue) zs r s)
      × (main f (with_input (ppower_input 7 zs r) s) ≡ served (answered vmhalt) zs r s)

  abbrev ppower_commands : ℕ → List (Cmd (Vm W) (Unit {0}))
  ppower_commands f =
      ppower_status f
      ∷ ppower_on f
      ∷ ppower_off f
      ∷ ppower_reset f
      ∷ ppower_stop f
      ∷ ppower_continue f
      ∷ ppower_halt f
      ∷ []

  behind_ppower :
      (f k : ℕ) (zs : List ℤ) (r : List ℕ) (s : Vm W)
      → IsInt (pos k)
      → main f (with_input (ppower_input k zs r) s)
        ≡ choose (ppower_commands f) (pos k) (with_input (numbers zs r) s)
  unfolding pick_from commands ppower numbered
  behind_ppower f k zs r s h =
      let t = show_int (pos k) ++ numbers zs r in
      main-word f 6 (codes "ppower") (ppower f) 10 t (with_input (ppower_input k zs r) s) refl
        ppower-IsWord refl refl
      ∙ rw (
          read_int-line none (pos k) (numbers zs r) (with_input (10 ∷ t) s) h (numbers-Stops zs r)
            refl)

  -- For an input of the word delvm, or of the word ppower and on the next line one of 1, 3,
  -- 4, 5, 6 and 7, and behind it numbers of an int other than -1, each behind a newline,
  -- with a -1 behind the last and no digit directly behind it, and with more rounds than
  -- numbers, main does for each number, in the order of the input, the deletion, or in the
  -- order of those six the status, power off, reset, stop, continuation or halt; it stops
  -- where one of them fails, and leaves what follows the -1.
  pub main-batches :
      (f : ℕ) (zs : List ℤ) (r : List ℕ) (s : Vm W)
      → AreIds zs
      → Stops r
      → length zs < f
      → RunsEach f zs r s
  unfolding pick_from choose
  main-batches f zs r s h stop g =
      let (del, status, off, halt, reset, stopped, continued) =
        batches-served f zs r (with_input (numbers zs r) s) h stop g refl in
      let same = λ (op : ℤ → Cmd (Vm W) (Unit {0})). served_input op zs r (numbers zs r) s in
      (
        behind_delvm f zs r (with_input (codes "delvm" ++ numbers zs r) s) refl
            ∙ del
            ∙ same (answered vmdel),
        behind_ppower f 1 zs r s (omega arith) ∙ status ∙ same status_of,
        behind_ppower f 3 zs r s (omega arith) ∙ off ∙ same (answered vmoff),
        behind_ppower f 4 zs r s (omega arith) ∙ reset ∙ same (answered vmreset),
        behind_ppower f 5 zs r s (omega arith) ∙ stopped ∙ same (answered vmstop),
        behind_ppower f 6 zs r s (omega arith) ∙ continued ∙ same (answered vmcontinue),
        behind_ppower f 7 zs r s (omega arith) ∙ halt ∙ same (answered vmhalt),
      )

  -- Where the log can always be written, for an input of the word addvm, two numbers of an
  -- int and numbers of an int other than -1, a newline before each number and a -1 behind
  -- the last, with no digit directly behind it, and with more rounds than machines, main
  -- returns behind the -1 and has printed ok or error once for each machine.
  pub main-addvm :
      (f : ℕ) (type arg : ℤ) (zs : List ℤ) (r : List ℕ) (s : Vm W)
      → AlwaysLogs host
      → IsInt type
      → IsInt arg
      → AreIds zs
      → Stops r
      → length zs < f
      → s.input ≡ codes "addvm" ++ 10 ∷ (show_int type ++ 10 ∷ (show_int arg ++ numbers zs r))
      → AnswersEach (main f) zs r s
  unfolding pick_from commands
  main-addvm f type arg zs r s logs h k ids stop g e =
      let t = show_int type ++ 10 ∷ (show_int arg ++ numbers zs r) in
      let (bs, s', d, i, l, o) =
        addvm-answers f type arg zs r (with_input (10 ∷ t) s) logs h k ids stop g refl in
      (bs, s', main-word f 1 (codes "addvm") (addvm f) 10 t s refl addvm-IsWord refl e ∙ d, i, l, o)
