-- ===== src/Db/Query.antt =====
-- `db_fetch` and `db_nextrec` of c_code/apue/mydb/db.c.
pub mod Fetch
pub mod Next
pub mod Pass
use somenote.Common.{
  ℕ, zero, suc, Bool, true, false, Option, none, some, List, [], ◌∷◌, ◌==◌, if◌then◌else◌, ◌+◌,
}
use somenote.Libc.Int.{ℤ, pos, negsuc}
use somenote.Libc.Text.{text}
use somenote.Db.State.{
  space, free_off, index_file, read_lock, un_lock, Db, ok, out_of_fuel, Cmd, pure, ◌>>=◌, ◌>>◌, get,
  lock_reg, count,
}
use somenote.Db.Index.{readidx}
use somenote.Db.Data.{readdat}
use somenote.Db.Search.{find_and_lock}

abbrev fetch_missing : Cmd (Option (List ℕ))
fetch_missing = do count (λ c. record c { fetcherr = c.fetcherr + 1 }); pure none

abbrev fetch_found : Cmd (Option (List ℕ))
fetch_found = do got ← readdat; count (λ c. record c { fetchok = c.fetchok + 1 }); pure (some got)

-- The data of a key, in the data buffer, or NULL.
pub db_fetch : ℕ → List ℕ → Cmd (Option (List ℕ))
db_fetch f key = do
  found ← find_and_lock f key false
  ptr ← if found then fetch_found else fetch_missing
  db ← get
  lock_reg index_file un_lock db.chainoff 1
  pure ptr

-- Nothing but spaces before the null byte: the key of a deleted record.
abbrev pub is_blank : List ℕ → Bool
is_blank [] = true
is_blank (c ∷ s) = if c == 0 then true else if c == space then is_blank s else false

-- The `do` loop of `db_nextrec`: whether there is a record that is not deleted.
pub nextrec_loop : ℕ → Cmd Bool
nextrec_loop zero = λ _. out_of_fuel
nextrec_loop (suc f) = do
  next ← readidx (pos 0)
  elim next [
    | negsuc n ↦ pure false
    | pos n ↦ do db ← get; if is_blank db.idxbuf then nextrec_loop f else pure true
  ]

abbrev nextrec_found : Cmd (Option (List ℕ × List ℕ))
nextrec_found = do
  db ← get
  got ← readdat
  count (λ c. record c { nextrec = c.nextrec + 1 })
  pure (some (text db.idxbuf, got))

-- The next record in the order of the file, its key and its data, or NULL at the end.
pub db_nextrec : ℕ → Cmd (Option (List ℕ × List ℕ))
db_nextrec f = do
  lock_reg index_file read_lock free_off 1
  found ← nextrec_loop f
  ptr ← if found then nextrec_found else pure none
  lock_reg index_file un_lock free_off 1
  pure ptr
