-- ===== src/Db/Tests.antt =====
-- Three databases of c_code/apue/mydb/db.c: a new one, one with a record of the key "a", and the
-- one from which this record is deleted again.
mod Witness
use somenote.Common.{
  ℕ, ◌+◌, ◌*◌, ◌<◌, ◌≤◌, ◌≡◌, ◌≢◌, refl, Bool, true, false, Option, none, some, List, [], ◌∷◌, ◌++◌,
  arith, length, suc, max,
}
use somenote.Libc.Int.{ℤ, pos, negsuc}
use somenote.Libc.Text.{codes, text, same_text}
use somenote.Libc.File.{overwrite, length-overwrite}
use somenote.Libc.Decimal.{padded}
use somenote.Db.Table.Push.{pushed}
use somenote.Db.Table.Search.{bucket-lt}
use somenote.Db.Table.Grow.{grown}
use somenote.Libc.Decimal.Width.{length-decimal}
use somenote.Db.State.{Db, Run, ok, ptr_sz, newline, ptr_max, nhash_def}
use somenote.Db.Index.Entry.{Entry, IsEntry, encode, length-encode}
use somenote.Db.Index.Pointer.{with_idx, length-padded_ptr}
use somenote.Db.Search.{hash, hash_from}
use somenote.Db.Search.Chain.{link_of, has_key}
use somenote.Db.Table.{Table, Holds, IsTable, chains, bucket, lookup}
use somenote.Db.Update.{db_store, db_insert, db_replace, db_store_either}
use somenote.Db.Update.Inserts.{Fits, record_for, record_for-IsEntry}
use somenote.Db.Update.Append.{pushed-IsTable}
use somenote.Db.Table.Unlink.{link_place}
use somenote.Db.Update.Blank.{blank}
use somenote.Db.Update.Dodelete.{idx_deleted, dat_deleted}
use somenote.Db.Update.Deleted.{deleted, IsTable-deleted}
use somenote.Db.Search.Free.{has_lengths}
use somenote.Db.Open.{db_alloc, zero_pointers}
use somenote.Db.Open.Empty.{
  empty_table, IsTable-empty, length-zero_pointers, Opens, db_open-new, db_open-again,
}

abbrev pub a : List ℕ
a = codes "a"

abbrev pub hello : List ℕ
hello = codes "hello"

-- The handle of a new database, at the chain of the key.
abbrev pub db₀ : Db
db₀ = record (db_alloc (codes "db4") (zero_pointers chains) []) {
  dat = record { bytes = []; offset = 0 };
  chainoff = bucket a * ptr_sz;
}

pub holds₀ : Holds db₀ empty_table
unfolding db_alloc
holds₀ = record { hashoff = refl; nhash = refl; table = IsTable-empty }

pub Fits₀ : Fits 0 a hello
Fits₀ = record {
  key_null = (omega arith, tt);
  key_sep = (omega arith, tt);
  key_some = omega arith;
  text_null = (omega arith, (omega arith, (omega arith, (omega arith, (omega arith, tt)))));
  text_some = omega arith;
  text_max = omega arith;
  off_max = omega arith;
  record_max = omega (arith, length-decimal 0 0 (omega arith), length-decimal 0 6 (omega arith));
}

pub room₀ : length db₀.idx.bytes ≤ ptr_max
unfolding db_alloc
room₀ = omega (arith, length-zero_pointers chains)

-- The handle of a database with one record, of the key "a" with the data "hello".
abbrev pub off₁ : ℕ
off₁ = length db₀.idx.bytes

abbrev pub entry₁ : Entry
entry₁ = record_for a hello 0 0

abbrev pub table₁ : Table
table₁ = pushed (bucket a) off₁ entry₁ (grown off₁ entry₁ hello empty_table)

abbrev pub db₁ : Db
db₁ = record db₀ {
  idx = record {
    bytes =
        overwrite (overwrite db₀.idx.bytes off₁ (encode entry₁)) db₀.chainoff (padded ptr_sz off₁);
    offset = 0;
  };
  dat = record { bytes = hello ++ newline ∷ []; offset = 6 };
}

pub holds₁ : Holds db₁ table₁
unfolding db_alloc
holds₁ = record {
  hashoff = refl;
  nhash = refl;
  table = pushed-IsTable db₀ empty_table holds₀ a hello refl refl Fits₀ room₀;
}

-- There is one record on the chain of "a", none on the free list.
found₁ : link_of (has_key a) (table₁.chain (bucket a)) ≡ some (off₁, entry₁)
unfolding hash hash_from text same_text
found₁ = refl

pub enough₁ : length (table₁.chain (bucket a)) < 5
unfolding hash hash_from text
enough₁ = omega arith

pub valid₁ : IsEntry entry₁
valid₁ = record_for-IsEntry a hello 0 0 Fits₀ (omega arith)

pub room₁ : length db₁.idx.bytes ≤ ptr_max
unfolding db_alloc
room₁ = omega (
  arith,
  length-overwrite (overwrite db₀.idx.bytes off₁ (encode entry₁)) db₀.chainoff (padded ptr_sz off₁),
  length-overwrite db₀.idx.bytes off₁ (encode entry₁),
  length-padded_ptr off₁ room₀,
  length-zero_pointers chains,
  length-encode entry₁ valid₁,
  valid₁.line_max,
  bucket-lt a,
)

-- What else is stored: longer data for the key "a", and data for the key "b".
abbrev pub b : List ℕ
b = codes "b"

abbrev pub longer : List ℕ
longer = codes "hello!"

pub Fits₁ : Fits 6 a longer
Fits₁ = record {
  key_null = (omega arith, tt);
  key_sep = (omega arith, tt);
  key_some = omega arith;
  text_null =
      (omega arith, (omega arith, (omega arith, (omega arith, (omega arith, (omega arith, tt))))));
  text_some = omega arith;
  text_max = omega arith;
  off_max = omega arith;
  record_max = omega (arith, length-decimal 0 6 (omega arith), length-decimal 0 7 (omega arith));
}

-- The handle of the database from which the record is deleted again.
abbrev pub place₁ : ℕ
place₁ = link_place (has_key a) (table₁.chain (bucket a)) (bucket a * ptr_sz)

abbrev pub table₂ : Table
table₂ = deleted (has_key a) (bucket a) off₁ entry₁ table₁

abbrev pub db₂ : Db
db₂ = record db₁ {
  idx = record { bytes = idx_deleted db₁.idx.bytes off₁ place₁ 0 entry₁; offset = 0 };
  dat = record { bytes = dat_deleted db₁.dat.bytes entry₁; offset = 0 };
}

pub holds₂ : Holds db₂ table₂
unfolding db_alloc hash hash_from text
holds₂ = record {
  hashoff = refl;
  nhash = refl;
  table =
      IsTable-deleted db₁.idx.bytes db₁.dat.bytes table₁ holds₁.table (has_key a) (hash a) off₁
        entry₁ (bucket-lt a) found₁;
}

pub free₂ : link_of (has_lengths 1 6) (table₂.chain 0) ≡ some (off₁, blank entry₁ 0)
unfolding hash hash_from text
free₂ = refl

pub missing₂ : link_of (has_key a) (table₂.chain (bucket a)) ≡ none
unfolding hash hash_from text same_text
missing₂ = refl
