-- ===== src/Db/Search.antt =====
-- Finding a record on its hash chain, and a free one to use again: `_db_hash`,
-- `_db_find_and_lock` and `_db_findfree` of c_code/apue/mydb/db.c.
pub mod Chain
pub mod Found
pub mod Free
pub mod Weights
use somenote.Common.{
  ℕ, zero, suc, ◌+◌, ◌-◌, ◌*◌, ◌%◌, ◌^◌, Bool, true, false, ◌&&◌, List, [], ◌∷◌, ◌==◌, ltb,
  if◌then◌else◌,
}
use somenote.Libc.Int.{ℤ, pos, is_zero}
use somenote.Libc.Text.{text, strlen, same_text}
use somenote.Db.State.{
  ptr_sz, free_off, index_file, read_lock, write_lock, un_lock, Db, Run, ok, out_of_fuel, Cmd, pure,
  ◌>>=◌, ◌>>◌, get, modify, lock_reg,
}
use somenote.Db.Index.{readptr, writeptr, readidx}

-- `c * i` added to an `unsigned long`. A `char` of 128 and more is negative.
abbrev weigh : ℕ → ℕ → ℕ
weigh c i = if ltb c 128 then c * i else 2 ^ 64 - (256 - c) * i

unfoldable pub hash_from : ℕ → ℕ → List ℕ → ℕ
hash_from hval i [] = hval
hash_from hval i (c ∷ key) = hash_from ((hval + weigh c i) % 2 ^ 64) (i + 1) key

-- The code divides by 137, not by `nhash`.
unfoldable pub hash : List ℕ → ℕ
hash key = hash_from 0 1 (text key) % 137

-- The `while` loop of `_db_find_and_lock`. The result is the offset of the record, or 0.
pub find_loop : ℕ → List ℕ → ℤ → Cmd ℤ
find_loop zero key offset = λ _. out_of_fuel
find_loop (suc f) key offset = if is_zero offset then pure offset else do
  nextoffset ← readidx offset
  db ← get
  if same_text (text db.idxbuf) (text key)
      then pure offset
      else (do modify (λ db'. record db' { ptroff = offset }); find_loop f key nextoffset)

-- Whether the record was found. The first byte of the chain stays locked.
pub find_and_lock : ℕ → List ℕ → Bool → Cmd Bool
find_and_lock f key writelock = do
  modify λ db. record db {
    chainoff = hash key * ptr_sz + db.hashoff;
    ptroff = pos (hash key * ptr_sz + db.hashoff);
  }
  db ← get
  lock_reg index_file (if writelock then write_lock else read_lock) db.chainoff 1
  first ← readptr db.ptroff
  offset ← find_loop f key first
  pure (if is_zero offset then false else true)

-- The `while` loop of `_db_findfree`: the record's offset, or 0, and the pointer that leads to it.
pub findfree_loop : ℕ → ℕ → ℕ → ℤ → ℤ → Cmd (ℤ × ℤ)
findfree_loop zero keylen datlen saveoffset offset = λ _. out_of_fuel
findfree_loop (suc f) keylen datlen saveoffset offset =
    if is_zero offset then pure (offset, saveoffset) else do
      nextoffset ← readidx offset
      db ← get
      if strlen db.idxbuf == keylen && db.datlen == datlen
          then pure (offset, saveoffset)
          else findfree_loop f keylen datlen offset nextoffset

-- Whether a free record of these lengths was found; it is taken off the free list.
unfoldable pub findfree : ℕ → ℕ → ℕ → Cmd Bool
findfree f keylen datlen = do
  lock_reg index_file write_lock free_off 1
  first ← readptr (pos free_off)
  (offset, saveoffset) ← findfree_loop f keylen datlen (pos free_off) first
  db ← get
  (if is_zero offset then pure tt else writeptr saveoffset db.ptrval)
  lock_reg index_file un_lock free_off 1
  pure (if is_zero offset then false else true)
