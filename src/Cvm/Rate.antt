-- ===== src/Cvm/Rate.antt =====
-- How far a transfer has come: `rate` of c_code/cvm/cvm.c, which reads the log of rsync.
pub mod Percent
use somenote.Common.{
  ℕ, zero, suc, ◌+◌, ◌-◌, Bool, true, false, Option, none, some, List, [], ◌∷◌, ◌++◌, ◌==◌, leb,
  ltb, if◌then◌else◌, length, take, drop, get_or,
}
use mathlib.Core.Option
use somenote.Libc.Int.{ℤ, pos, negsuc}
use somenote.Libc.Text.{text, codes}
use somenote.Libc.Scan.{scan_int, show_int, strstr, strrchr}
use somenote.Libc.Effect.{Run, ok, undefined, Cmd, pure, ◌>>=◌, ◌>>◌, get, modify, need, fit}
use somenote.Cvm.State.{logdir, resultlen, Host, Vm, fits, is_num, or_old, set_file}
use somenote.Cvm.Host.{is_some}

-- `for(p = result + i; *p != ' '; --p);`, which may run past the start of the buffer
pub back_to_space : List ℕ → ℕ → Option ℕ
back_to_space s zero = if get_or s 0 0 == 32 then some 0 else none
back_to_space s (suc i) = elim (get_or s (suc i) 0 == 32) [
  | true ↦ some (suc i)
  | false ↦ back_to_space s i
]

-- `p -= 2`
two_back : ℕ → Option ℕ
two_back zero = none
two_back (suc zero) = none
two_back (suc (suc i)) = some i

-- The number behind the last space before an index.
pub number_before : List ℕ → ℕ → Option (ℕ × ℤ)
number_before s i = elim (back_to_space s i) [
  | none ↦ none
  | some j ↦ Option.map (λ r. (j, r)) (scan_int (drop j s)).0
]

-- What the log of a transfer of one file says.
pub rate_of : {S : Type 0} → List ℕ → Cmd S ℤ
rate_of s =
    if is_some (strstr s (codes "total size is")) then pure (pos 100) else elim (strrchr s b'%') [
      | none ↦ pure (pos 0)
      | some i ↦ do (j, r) ← need (number_before s i); pure r
    ]

-- The last space two characters before a percent sign and further back.
space_at_percent : List ℕ → ℕ → Option ℕ
space_at_percent s i = elim (two_back i) [ none ↦ none | some k ↦ back_to_space s k ]

-- A number two characters before a percent sign and further back.
number_at_percent : List ℕ → ℕ → Option (ℕ × ℤ)
number_at_percent s i = elim (two_back i) [ none ↦ none | some k ↦ number_before s k ]

-- After a 100, whether the percentage before it is 100 too; without a number, the 100 stays.
before_hundred : {S : Type 0} → List ℕ → Cmd S ℤ
before_hundred s = elim (strrchr s b'%') [
  | none ↦ pure (pos 99)
  | some i ↦ do
    j ← need (space_at_percent s i)
    r ← need (or_old (scan_int (drop j s)).0 (some (pos 100)))
    if is_num r 100 then pure (pos 100) else pure (pos 99)
]

-- What the log of a migration says, which moves two files.
rate_of_two : {S : Type 0} → List ℕ → Cmd S ℤ
rate_of_two s =
    if is_some (strstr s (codes "total size is")) then pure (pos 100) else elim (strrchr s b'%') [
      | none ↦ pure (pos 0)
      | some i ↦ do
        (j, r) ← need (number_at_percent s i)
        if is_num r 100 then before_hundred (take j s) else pure r
    ]

-- The log that belongs to a time, or another number.
abbrev log_of : List ℕ → List ℕ
log_of t = logdir ++ codes "/" ++ t

module _ {W : Type 0} ⦃host : Host W⦄ where
  -- `fgetc` is called until the end of the file has been met, so that its -1 is stored too.
  load_log : List ℕ → Cmd (Vm W) (Unit {0})
  load_log t = do
    set_file (log_of t)
    s ← get
    content ← need (host.read_file s.file s.world)
    fit (fits resultlen (content ++ 255 ∷ []))
    modify λ s'. record s' { result = text (content ++ 255 ∷ []) }

  -- `rate(t, 0)`
  pub rate : List ℕ → Cmd (Vm W) ℤ
  rate t = do load_log t; s ← get; rate_of s.result

  -- `rate(t, 1)`
  pub rate_two : List ℕ → Cmd (Vm W) ℤ
  rate_two t = do load_log t; s ← get; rate_of_two s.result
