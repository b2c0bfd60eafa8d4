-- ===== src/Cvm/Main/Runs.antt =====
-- Whole runs of c_code/cvm/cvm.c, from the command word to the last answer.
use somenote.Common.{ℕ, ◌<◌, ◌≡◌, refl, ◌∙◌, List, [], ◌∷◌, ◌++◌, length, arith, none}
use somenote.Libc.Int.{ℤ, pos, negsuc}
use somenote.Libc.Text.{codes}
use somenote.Libc.Decimal.RoundTrip.{Stops}
use somenote.Libc.Scan.{show_int}
use somenote.Libc.Effect.{ok}
use somenote.Cvm.State.{Host, Vm, isodir}
use somenote.Cvm.Host.Results.{AlwaysLogs, Writes}
use somenote.Cvm.Power.{delvm}
use somenote.Cvm.Power.Batch.{numbers, AreIds, read_int-line}
use somenote.Cvm.Power.Batch.Answers.{AnswersEach, delvm-answers}
use somenote.Cvm.Images.{cd_list, end_mark}
use somenote.Cvm.Images.Listing.{AreNames, lines, print_listing-lines}
use somenote.Cvm.Main.{pick_from, commands, main, numbered, choose, cd}
use somenote.Cvm.Main.Words.{IsWord, main-word}

delvm-IsWord : IsWord (codes "delvm")
delvm-IsWord = grind arith

cd-IsWord : IsWord (codes "cd")
cd-IsWord = grind arith

module _ {W : Type 0} ⦃host : Host W⦄ where
  pub behind_delvm :
      (f : ℕ) (zs : List ℤ) (r : List ℕ) (s : Vm W)
      → s.input ≡ codes "delvm" ++ numbers zs r
      → main f s ≡ delvm f (record s { input = numbers zs r })
  unfolding pick_from commands
  behind_delvm f [] r s e =
      main-word f 2 (codes "delvm") (delvm f) 10 (show_int (negsuc 0) ++ r) s refl delvm-IsWord refl
        e
  behind_delvm f (z ∷ zs) r s e =
      main-word f 2 (codes "delvm") (delvm f) 10 (show_int z ++ numbers zs r) s refl delvm-IsWord
        refl e

  -- Where the log can always be written, for an input of the word delvm and, each behind a
  -- newline, numbers of an int other than -1 with a -1 behind the last and no digit
  -- directly behind it, and with more rounds than numbers, main returns behind the -1 and
  -- has printed ok or error once for each number.
  pub main-delvm :
      (f : ℕ) (zs : List ℤ) (r : List ℕ) (s : Vm W)
      → AlwaysLogs host
      → AreIds zs
      → Stops r
      → length zs < f
      → s.input ≡ codes "delvm" ++ numbers zs r
      → AnswersEach (main f) zs r s
  main-delvm f zs r s logs ids stop g e =
      let (bs, s', d, i, l, o) =
        delvm-answers f zs r (record s { input = numbers zs r }) logs ids stop g refl in
      (bs, s', behind_delvm f zs r s e ∙ d, i, l, o)

  -- The run ends behind the number, and the output is a text.
  abbrev pub Lists : ℕ → List ℕ → List ℕ → Vm W → Type 0
  Lists f r out s = (s' : Vm W) × (main f s ≡ ok tt s') × (s'.output ≡ out) × (s'.input ≡ r)

  -- Where the log can always be written, for an input of the word cd and the number 1 on
  -- the next line, with no digit directly behind it, where the listing of the directory is
  -- of names without white space of less than 1024 bytes with a newline behind each, and
  -- the pipe and the buffer hold it and it has no null byte, main returns behind the
  -- number, given more rounds than names, and has printed these lines and a -1.
  pub main-cd_list :
      (f : ℕ) (ws : List (List ℕ)) (r : List ℕ) (s : Vm W)
      → AlwaysLogs host
      → Writes (codes "ls " ++ isodir) s.world (lines ws)
      → AreNames ws
      → Stops r
      → length ws < f
      → s.input ≡ codes "cd" ++ 10 ∷ (show_int (pos 1) ++ r)
      → Lists f r ((s.output ++ lines ws) ++ end_mark) s
  unfolding pick_from commands cd numbered choose cd_list
  main-cd_list f ws r s logs writes h stop g e =
      let s₁ = record s { input = 10 ∷ (show_int (pos 1) ++ r) } in
      let s₂ = record s { input = r } in
      let (s', p, o, i) =
        print_listing-lines f (codes "ls " ++ isodir) ws s₂ logs (omega arith) writes h g in
      (
        s',
        main-word f 5 (codes "cd") (cd f) 10 (show_int (pos 1) ++ r) s refl cd-IsWord refl e
            ∙ rw (read_int-line none (pos 1) r s₁ (omega arith) stop refl) p,
        o,
        i,
      )
