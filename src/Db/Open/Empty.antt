-- ===== src/Db/Open/Empty.antt =====
-- `db_open` of c_code/apue/mydb/db.c, and the tables in the files of the handle that it returns.
use somenote.Common.{
  ℕ, zero, suc, ◌+◌, ◌*◌, ◌<◌, ◌≡◌, refl, sym, ap, ◌∙◌, Bool, true, false, ◌&&◌, Option, none, some,
  List, [], ◌++◌, arith, length, length-append, take-append, drop-append, drop-drop, subst,
  append-nil, take, drop, drop-nil,
}
use somenote.Libc.File
use somenote.Libc.File.{slice}
use somenote.Libc.Decimal.{padded}
use somenote.Db.State.{ptr_sz, Db, Run, ok}
use somenote.Db.Index.{db_rewind}
use somenote.Db.Index.Pointer.{PtrAt, length-padded_ptr}
use somenote.Db.Table.{Slot, Table, IsTable, Holds, chains, first_record, nobody}
use somenote.Db.Open.{db_alloc, zero_pointers, init_index, db_open}

-- No records.
abbrev pub empty_table : Table
empty_table = record { chain = λ c. []; slot = λ a. none; owner = λ a. nobody; content = λ a. [] }

PtrAt-zero_pointers : (n c : ℕ) → c < n → PtrAt (zero_pointers n) (c * ptr_sz) 0
unfolding zero_pointers
PtrAt-zero_pointers zero c h = absurd (omega arith)
PtrAt-zero_pointers (suc n) zero h = (
  omega arith,
  subst (λ k. take k (padded ptr_sz 0 ++ zero_pointers n) ≡ padded ptr_sz 0)
      (length-padded_ptr 0 (omega arith)) (take-append (padded ptr_sz 0) (zero_pointers n)),
)
PtrAt-zero_pointers (suc n) (suc c) h = (
  omega arith,
  ap (λ k. slice (padded ptr_sz 0 ++ zero_pointers n) k ptr_sz) behind
      ∙ ap (take ptr_sz) (
          sym (
            drop-drop (length (padded ptr_sz 0)) (c * ptr_sz) (padded ptr_sz 0 ++ zero_pointers n)))
      ∙ ap (λ xs. slice xs (c * ptr_sz) ptr_sz) (drop-append (padded ptr_sz 0) (zero_pointers n))
      ∙ (PtrAt-zero_pointers n c (omega arith)).1,
)
  where
    behind : suc c * ptr_sz ≡ length (padded ptr_sz 0) + c * ptr_sz
    behind = omega (arith, length-padded_ptr 0 (omega arith))

pub length-zero_pointers : (n : ℕ) → length (zero_pointers n) ≡ n * ptr_sz + 1
unfolding zero_pointers
length-zero_pointers zero = refl
length-zero_pointers (suc n) = omega (
  arith,
  length-append (padded ptr_sz 0) (zero_pointers n),
  length-padded_ptr 0 (omega arith),
  length-zero_pointers n,
)

none_ne_some : (s : Slot) → none ≡ some s → ⊥
none_ne_some s h = cc

pub IsTable-empty : IsTable (zero_pointers chains) [] empty_table
IsTable-empty = record {
  heads = λ c h. PtrAt-zero_pointers chains c h;
  linked = λ c h. tt;
  owned = λ c h. tt;
  keys = λ c h. tt;
  header = omega (arith, length-zero_pointers chains);
  in_idx = λ a s h. absurd (none_ne_some s h);
  spaced = λ a b s u h g l. absurd (none_ne_some s h);
  data_at = λ a s h. absurd (none_ne_some s h);
}

-- The call returns a handle, whose files hold the table.
pub record Opens (run : Option (Run (Unit {0}))) (t : Table) : Type 0 where
  pub after : Db
  pub returns : run ≡ some (ok tt after)
  pub holds : Holds after t

-- For any path, db_open with O_CREAT and O_TRUNC on two empty files returns a handle whose
-- files hold the table without records.
pub db_open-new : (path : List ℕ) → Opens (db_open path true true (some []) (some [])) empty_table
unfolding db_open init_index db_rewind File.write File.seek_set db_alloc
db_open-new path = record {
  after = _;
  returns = refl;
  holds = record { hashoff = refl; nhash = refl; table = created };
}
  where
    created :
        IsTable (zero_pointers chains ++ drop (length (zero_pointers chains)) []) [] empty_table
    created =
        subst (λ b. IsTable b [] empty_table)
          (sym (append-nil (zero_pointers chains))
            ∙ ap (λ r. zero_pointers chains ++ r) (sym (drop-nil (length (zero_pointers chains)))))
          IsTable-empty

-- What `db_open` without both flags returns on any two files.
abbrev pub handle : List ℕ → (idx dat : List ℕ) → Db
handle path idx dat = record (db_alloc path idx dat) {
  idx = record { bytes = idx; offset = first_record };
  idxoff = first_record;
}

pub db_open-handle :
    (path idx dat : List ℕ) (creat trunc : Bool)
    → (creat && trunc) ≡ false
    → db_open path creat trunc (some idx) (some dat) ≡ some (ok tt (handle path idx dat))
unfolding db_open db_rewind File.seek_set db_alloc
db_open-handle path idx dat creat trunc h = rw h

pub no_trunc : (b : Bool) → (b && false) ≡ false
no_trunc true = refl
no_trunc false = refl

-- Files that are not emptied hold what they held.
pub db_open-again :
    (path idx dat : List ℕ) (t : Table) (creat : Bool)
    → IsTable idx dat t
    → Opens (db_open path creat false (some idx) (some dat)) t
unfolding db_alloc
db_open-again path idx dat t creat h = record {
  after = handle path idx dat;
  returns = db_open-handle path idx dat creat false (no_trunc creat);
  holds = record { hashoff = refl; nhash = refl; table = h };
}
