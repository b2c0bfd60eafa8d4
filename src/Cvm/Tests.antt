-- ===== src/Cvm/Tests.antt =====
-- The theorems on c_code/cvm/cvm.c on a machine whose log can be written, on which every command of
-- the shell prints two names, and no monitor or agent listens. Its state is the time.
use somenote.Common.{ℕ, suc, ◌+◌, ◌≡◌, refl, false, none, some, List, [], ◌∷◌, ◌++◌, arith}
use somenote.Libc.Int.{ℤ, pos, negsuc}
use somenote.Libc.Text.{codes, NoNull}
use somenote.Libc.Decimal.{decimal, digits_on}
use somenote.Libc.Scan.{show_int, strstr, starts}
use somenote.Libc.Effect.{ok, undefined, out_of_fuel}
use somenote.Cvm.State.{Host, Vm}
use somenote.Cvm.Host.Results.{AlwaysLogs}
use somenote.Cvm.Power.{addvm, is_end, delvm}
use somenote.Cvm.Power.Batch.{numbers, unended}
use somenote.Cvm.Power.Batch.Commands.{ServesAll, batches-served}
use somenote.Cvm.Power.Batch.Answers.{AnswersEach, addvm-answers, delvm-answers, delvm-endless}
use somenote.Cvm.Images.{print_listing, first_word, names_loop, end_mark}
use somenote.Cvm.Images.Listing.{
  AreNames, lines, lines_to, Prints, print_listing-lines, names_loop-unended,
}
use somenote.Cvm.Template.{os_same}
use somenote.Libc.Scan.Search.{at_some_line}
use somenote.Cvm.Template.Same.{Says, os_same-at_some_line}
use somenote.Cvm.Machine.Deleted.{SaysGone, vmdel-AlwaysLogs}
use somenote.Cvm.Machine.{vmadd}
use somenote.Cvm.Machine.Added.{SaysThere, vmadd-AlwaysLogs}
use somenote.Cvm.Rate.{rate_of}
use somenote.Cvm.Rate.Percent.{rate_of-percent}
use somenote.Cvm.Main.{main}
use somenote.Cvm.Main.Batches.{RunsEach, main-batches, main-addvm}
use somenote.Cvm.Main.Runs.{Lists, main-delvm, main-cd_list}

abbrev two_names : List (List ℕ)
two_names = codes "a.iso" ∷ codes "b" ∷ []

abbrev still : Host ℕ
still = record {
  system = λ t w. suc w;
  shell = λ t w. (lines two_names, suc w);
  pipe_size = 65536;
  exists = λ t w. false;
  size = λ t w. none;
  read_file = λ t w. none;
  append_file = λ p t w. some w;
  clock = λ w. w;
  ctime = λ w. codes "now";
  sleep = λ n w. n + w;
  dial = λ w. (false, w);
  tell = λ t w. (false, w);
  join = λ p w. (false, w);
  hear = λ w. ([], w);
  say = λ t w. w;
  nine_to_one = λ a b. a;
}

-- The program before it runs, with an input.
abbrev reading : List ℕ → Vm ℕ
reading i = record {
  world = 7;
  input = i;
  output = [];
  file = [];
  name = [];
  cmd = [];
  result = [];
  result2 = [];
}

still-AlwaysLogs : AlwaysLogs still
still-AlwaysLogs t w = (w, refl)

abbrev ids : List ℤ
ids = pos 3 ∷ negsuc 4 ∷ []

batches-served_example : ServesAll ⦃host = still⦄ 3 ids [] (reading (numbers ids []))
unfolding is_end
batches-served_example =
    batches-served ⦃host = still⦄ 3 ids [] (reading (numbers ids []))
      (omega arith, refl, (omega arith, refl, tt)) tt (omega arith) refl

delvm-answers_example : AnswersEach (delvm ⦃host = still⦄ 3) ids [] (reading (numbers ids []))
unfolding is_end
delvm-answers_example =
    delvm-answers ⦃host = still⦄ 3 ids [] (reading (numbers ids [])) still-AlwaysLogs
      (omega arith, refl, (omega arith, refl, tt)) tt (omega arith) refl

delvm-endless_example : delvm ⦃host = still⦄ 1000 (reading (unended ids)) ≡ out_of_fuel
unfolding is_end
delvm-endless_example =
    delvm-endless ⦃host = still⦄ 1000 (pos 3) (negsuc 4 ∷ []) (reading (unended ids))
      still-AlwaysLogs (omega arith, refl, (omega arith, refl, tt)) refl

vmdel_example : SaysGone ⦃host = still⦄ (pos 3) (reading [])
vmdel_example = vmdel-AlwaysLogs ⦃host = still⦄ still-AlwaysLogs (pos 3) (reading []) (omega arith)

abbrev ls : List ℕ
ls = codes "ls /var/cos/cvm/iso"

two_names-NoNull : NoNull (lines two_names)
two_names-NoNull = grind arith

two_names-AreNames : AreNames two_names
two_names-AreNames =
    (((refl, (refl, (refl, (refl, (refl, tt))))), omega arith), (((refl, tt), omega arith), tt))

print_listing_example :
    Prints
      (print_listing ⦃host = still⦄ 3 ls)
      (codes "a.iso" ++ 10 ∷ codes "b" ++ 10 ∷ end_mark)
      (reading [])
print_listing_example =
    print_listing-lines ⦃host = still⦄ 3 ls two_names (reading []) still-AlwaysLogs (omega arith)
      (refl, omega arith, omega arith, two_names-NoNull) two_names-AreNames (omega arith)

names_loop_example :
    names_loop 3 first_word (lines_to two_names (codes "c")) (reading []) ≡ undefined
names_loop_example =
    names_loop-unended 3 two_names (codes "c") (reading []) two_names-AreNames
      ((refl, tt), omega arith) (omega arith)

os_same_example : Says (os_same ⦃host = still⦄ 20 (codes "b") (codes "10.0.0.2")) false (reading [])
unfolding at_some_line starts
os_same_example =
    os_same-at_some_line ⦃host = still⦄ 20 98 [] (codes "10.0.0.2") (lines two_names) (reading [])
      still-AlwaysLogs (refl, tt) (omega arith) (omega arith)
      (refl, omega arith, omega arith, two_names-NoNull) (omega arith)

rate_of_example : rate_of (codes "sent 12 42% of it") (reading []) ≡ ok (pos 42) (reading [])
unfolding decimal digits_on strstr starts
rate_of_example =
    rate_of-percent (codes "sent 12") (codes " of it") 42 (omega arith)
      (refl, (refl, (refl, (refl, (refl, (refl, tt)))))) (reading []) refl

-- Two machines of 40 gigabytes.
abbrev forty : List ℕ
forty = 10 ∷ (show_int (pos 2) ++ 10 ∷ (show_int (pos 40) ++ numbers ids []))

addvm-answers_example : AnswersEach (addvm ⦃host = still⦄ 3) ids [] (reading forty)
unfolding is_end
addvm-answers_example =
    addvm-answers ⦃host = still⦄ 3 (pos 2) (pos 40) ids [] (reading forty) still-AlwaysLogs
      (omega arith) (omega arith) (omega arith, refl, (omega arith, refl, tt)) tt (omega arith) refl

vmadd_example :
    SaysThere ⦃host = still⦄ (vmadd ⦃host = still⦄ (pos 2) (pos 40) (pos 3)) (pos 3) (reading [])
vmadd_example =
    vmadd-AlwaysLogs ⦃host = still⦄ still-AlwaysLogs (pos 2) (pos 40) (pos 3) (reading [])
      (omega arith) (omega arith)

-- A whole input for delvm.
abbrev deletion : List ℕ
deletion = codes "delvm" ++ numbers ids []

main-delvm_example : AnswersEach (main ⦃host = still⦄ 3) ids [] (reading deletion)
unfolding is_end
main-delvm_example =
    main-delvm ⦃host = still⦄ 3 ids [] (reading deletion) still-AlwaysLogs
      (omega arith, refl, (omega arith, refl, tt)) tt (omega arith) refl

-- A whole input for the listing of compact disks.
abbrev disks : List ℕ
disks = codes "cd" ++ 10 ∷ (show_int (pos 1) ++ 10 ∷ [])

main-cd_list_example :
    Lists ⦃host = still⦄ 3
      (10 ∷ [])
      (codes "a.iso" ++ 10 ∷ codes "b" ++ 10 ∷ end_mark)
      (reading disks)
main-cd_list_example =
    main-cd_list ⦃host = still⦄ 3 two_names (10 ∷ []) (reading disks) still-AlwaysLogs
      (refl, omega arith, omega arith, two_names-NoNull) two_names-AreNames refl (omega arith) refl

main-batches_example : RunsEach ⦃host = still⦄ 3 ids [] (reading [])
unfolding is_end
main-batches_example =
    main-batches ⦃host = still⦄ 3 ids [] (reading []) (omega arith, refl, (omega arith, refl, tt))
      tt (omega arith)

main-addvm_example : AnswersEach (main ⦃host = still⦄ 3) ids [] (reading (codes "addvm" ++ forty))
unfolding is_end
main-addvm_example =
    main-addvm ⦃host = still⦄ 3 (pos 2) (pos 40) ids [] (reading (codes "addvm" ++ forty))
      still-AlwaysLogs (omega arith) (omega arith) (omega arith, refl, (omega arith, refl, tt)) tt
      (omega arith) refl
