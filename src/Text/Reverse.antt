-- ===== src/Text/Reverse.antt =====
-- `reverse` of c_code/1-19-reverse.c: a line is turned round in its buffer.
pub mod Turned
use somenote.Common.{
  ℕ, zero, suc, ◌+◌, ◌-◌, Bool, true, false, List, [], ◌∷◌, ◌==◌, ltb, if◌then◌else◌, get_or, set,
  length, Option, none, some,
}
use somenote.Libc.Effect.{Run, ok, undefined, out_of_fuel, Cmd, ◌>>=◌, get, need}

-- `while(s[i] != '\0') ++i;`: none where the buffer has no null byte
pub end_of : List ℕ → Option ℕ
end_of [] = none
end_of (c ∷ s) = if c == 0 then some 0 else elim (end_of s) [ none ↦ none | some i ↦ some (suc i) ]

-- The swap of two bytes.
pub swap : ℕ → ℕ → List ℕ → List ℕ
swap j i s = set (set s j (get_or s i 0)) i (get_or s j 0)

-- `while(j < i)`, with the index behind i in place of i, which may be -1.
pub swap_loop : ℕ → ℕ → ℕ → Cmd (List ℕ) (Unit {0})
swap_loop zero j e s = out_of_fuel
swap_loop (suc f) j e s =
    if ltb (suc j) e then swap_loop f (suc j) (e - 1) (swap j (e - 1) s) else ok tt s

-- Of an empty line the byte before the buffer is read.
pub reverse : ℕ → Cmd (List ℕ) (Unit {0})
reverse f = do
  s ← get
  e ← need (end_of s)
  elim e [
    | zero ↦ λ _. undefined
    | suc i ↦ if get_or s i 0 == 10 then swap_loop f 0 i else swap_loop f 0 (suc i)
  ]
