-- ===== src/Db/Tests/Witness.antt =====
-- The theorems on the database of c_code/apue/mydb/db.c at those inputs.
use somenote.Common.{
  ◌+◌, ℕ, ◌≡◌, ◌≢◌, refl, true, false, none, some, [], ◌∷◌, ◌++◌, arith, ap, get_or, subst,
}
use somenote.Libc.Int.{pos}
use somenote.Db.State.{Db, ok, seek_end, ◌>>=◌, ptr_sz}
use somenote.Db.Table.{chains}
use somenote.Db.Search.{hash, hash_from}
use somenote.Libc.Text.{text, same_text}
use somenote.Db.Update.{
  db_store, db_delete, append_record, reuse_record, dodelete, db_insert, db_replace,
  db_store_either,
}
use somenote.Db.Update.Inserts.{Inserts}
use somenote.Db.Update.Append.{append_record_lem}
use somenote.Db.Update.Reuse.{reuse_record_lem}
use somenote.Db.Update.Stored.{Stored}
use somenote.Db.Update.Store.{db_store_lem}
use somenote.Db.Update.Delete.{Deletes, db_delete_lem}
use somenote.Db.Query.Fetch.{Fetched, db_fetch_lem}
use somenote.Db.Search.{findfree}
use somenote.Db.Search.Found.{at_link}
use somenote.Db.Table.Free.{findfree-found, after_findfree}
use somenote.Db.Update.Blank.{blank}
use somenote.Db.Update.Dodelete.{dodelete_lem, after_dodelete}
use somenote.Db.Index.{readptr, writeptr, readidx, writeidx}
use somenote.Db.Index.Entry.{IsEntry}
use somenote.Db.Index.Record.{after_readidx}
use somenote.Db.Index.Write.{readidx-writeidx, new_entry, after_writeidx}
use somenote.Db.Index.Pointer.{readptr-writeptr, with_idx}
use somenote.Db.Data.{readdat, writedat}
use somenote.Db.Data.RoundTrip.{readdat-writedat, after_readdat, after_writedat}
use somenote.Libc.File.{overwrite}
use somenote.Libc.Decimal.{padded}
use somenote.Db.Query.Next.{Reads, db_nextrec_lem}
use somenote.Libc.File.{length-overwrite}
use somenote.Db.Index.Entry.{encode, EntryAt}
use somenote.Db.Index.Pointer.{length-padded_ptr}
use somenote.Db.Table.Search.{bucket-lt}
use somenote.Common.{length, ◌≤◌}
use somenote.Db.Table.{bucket}
use somenote.Db.Session.{FetchesThen, fetch-store, fetch-store_ne, fetch-delete, fetch-delete_ne}
use somenote.Db.Session.Reopened.{ReopensThen, PassesThen, reopen-store, reopen-delete, open-pass}
use somenote.Db.Query.Next.{Sequence}
use somenote.Db.Table.{first_record}
use somenote.Db.Search.Weights.{hash-weights}
use somenote.Db.Open.{db_open, db_alloc}
use somenote.Db.Open.Empty.{Opens, empty_table, length-zero_pointers, db_open-new}
use somenote.Db.Tests.{
  a, b, hello, longer, db₀, holds₀, Fits₀, room₀, off₁, entry₁, table₁, db₁, holds₁, enough₁,
  valid₁, room₁, Fits₁, table₂, db₂, holds₂, free₂, missing₂, place₁,
}

b_not_a : text b ≢ text a
unfolding text
b_not_a q = absurd (b_not_a_byte (ap (λ s. get_or s 0 0) q))
  where
    b_not_a_byte : ◌≢◌ {A = ℕ} 98 97
    b_not_a_byte = omega arith

-- The new database, its buffers set for the data at offset 0.
abbrev db₁' : Db
db₁' = record db₀ { datoff = 0; datlen = 6 }

valid₁' : IsEntry (new_entry a 0 db₁')
valid₁' = valid₁

-- "hello!" replaces "hello".
db_store_example : Stored (db_store 5 a longer db_replace db₁) table₁ a (pos 0) (some longer)
unfolding hash hash_from text same_text
db_store_example =
    db_store_lem db₁ table₁ holds₁ a longer 5 Fits₁ room₁ enough₁ (omega arith) db_replace

db_delete_example : Deletes db₁ table₁ a 5
db_delete_example = db_delete_lem db₁ table₁ holds₁ a 5 enough₁

db_fetch_example : Fetched db₁ table₁ a 5
db_fetch_example = db_fetch_lem db₁ table₁ holds₁ a 5 enough₁

fetch-store_example : FetchesThen (db_store 5 a longer db_store_either db₁) a (some longer)
unfolding hash hash_from text
fetch-store_example =
    fetch-store db₁ table₁ holds₁ a longer 5 Fits₁ room₁ enough₁ (omega arith) db_store_either

fetch-delete_example : FetchesThen (db_delete 5 a db₁) a none
fetch-delete_example = fetch-delete db₁ table₁ holds₁ a 5 enough₁

db_open-new_example : Opens (db_open a true true (some []) (some [])) empty_table
db_open-new_example = db_open-new a

append_record_example : Inserts (append_record a hello (pos 0) db₀) empty_table a hello
append_record_example = append_record_lem db₀ empty_table holds₀ a hello refl refl Fits₀ room₀

fetch-store_ne_example : FetchesThen (db_store 5 a longer db_insert db₁) b none
unfolding hash hash_from text
fetch-store_ne_example =
    fetch-store_ne db₁ table₁ holds₁ a longer 5 Fits₁ room₁ enough₁ (omega arith) db_insert b
      b_not_a

fetch-delete_ne_example : FetchesThen (db_delete 5 a db₁) b none
unfolding hash hash_from text
fetch-delete_ne_example = fetch-delete_ne db₁ table₁ holds₁ a 5 enough₁ b b_not_a

reuse_record_example :
    Inserts
      (reuse_record a hello (pos 0) (after_findfree off₁ 0 (blank entry₁ 0) db₂))
      table₂
      a
      hello
unfolding hash hash_from text reuse_record same_text
reuse_record_example =
    reuse_record_lem db₂ table₂ holds₂ a hello refl missing₂ 0 Fits₀ off₁ (blank entry₁ 0) free₂

dodelete_example :
    dodelete (at_link db₁ (pos place₁) (off₁, entry₁))
    ≡ ok tt (after_dodelete off₁ place₁ 0 entry₁ (at_link db₁ (pos place₁) (off₁, entry₁)))
unfolding hash hash_from text
dodelete_example =
    dodelete_lem db₁ off₁ place₁ 0 entry₁ valid₁ room₀ (holds₁.table.heads 0 (omega arith))

findfree_example : findfree 5 1 6 db₂ ≡ ok true (after_findfree off₁ 0 (blank entry₁ 0) db₂)
unfolding hash hash_from text db_alloc
findfree_example =
    findfree-found 5 1 6 db₂ (table₂.chain 0) (holds₂.table.heads 0 (omega arith))
      (holds₂.table.linked 0 (omega arith)) (omega arith) off₁ (blank entry₁ 0)
      (omega (arith, length-zero_pointers chains)) (omega arith) free₂

readptr-writeptr_example :
    (writeptr (pos 7) (pos 967) >>= λ _. readptr (pos 7)) db₀
    ≡ ok (pos 967) (with_idx (overwrite db₀.idx.bytes 7 (padded ptr_sz 967)) 14 db₀)
readptr-writeptr_example = readptr-writeptr 7 967 db₀ (omega arith)

readdat-writedat_example :
    (writedat hello seek_end >>= λ _. readdat) db₀
    ≡ ok (hello ++ 0 ∷ []) (after_readdat hello (after_writedat hello seek_end db₀))
readdat-writedat_example = readdat-writedat hello seek_end db₀ Fits₀.text_null (omega arith)

readidx-writeidx_example :
    (writeidx a seek_end (pos 0) >>= λ _. readidx (pos off₁)) db₁'
    ≡ ok (pos 0) (after_readidx off₁ (new_entry a 0 db₁') (after_writeidx a seek_end 0 db₁'))
unfolding db_alloc
readidx-writeidx_example =
    readidx-writeidx a seek_end 0 db₁' valid₁' (omega (arith, length-zero_pointers chains))

-- The database with one record, its index file at the first record.
abbrev db_read : Db
db_read = record db₁ { idx = record { bytes = db₁.idx.bytes; offset = off₁ } }

to_end₁ : length db₁.idx.bytes ≤ off₁ + length (encode entry₁)
unfolding db_alloc
to_end₁ = omega (
  arith,
  length-overwrite (overwrite db₀.idx.bytes off₁ (encode entry₁)) db₀.chainoff (padded ptr_sz off₁),
  length-overwrite db₀.idx.bytes off₁ (encode entry₁),
  length-padded_ptr off₁ room₀,
  length-zero_pointers chains,
  bucket-lt a,
)

entry_at₁ : EntryAt db₁.idx.bytes off₁ entry₁
unfolding hash hash_from text
entry_at₁ = (holds₁.table.linked (bucket a) (bucket-lt a)).1

db_nextrec_example : Reads 5 db_read (some (a, hello ++ 0 ∷ []))
db_nextrec_example =
    db_nextrec_lem 5 db_read (λ e. hello) (entry₁ ∷ []) (entry_at₁, to_end₁) (refl, refl, tt)
      (omega arith)

reopen-store_example :
    ReopensThen (db_store 5 a longer db_store_either db₁) a true false a (some longer)
unfolding hash hash_from text same_text
reopen-store_example =
    reopen-store db₁ table₁ holds₁ a 5 enough₁ a true false a longer db_store_either Fits₁ room₁
      (omega arith)

reopen-delete_example : ReopensThen (db_delete 5 a db₁) a false true a none
unfolding hash hash_from text same_text
reopen-delete_example = reopen-delete db₁ table₁ holds₁ a 5 enough₁ a false true a

-- The records of the database with one record.
records₁ : Sequence db₁.idx.bytes first_record (entry₁ ∷ [])
unfolding db_alloc
records₁ =
    subst (λ o. Sequence db₁.idx.bytes o (entry₁ ∷ [])) (length-zero_pointers chains)
      (entry_at₁, to_end₁)

open-pass_example :
    PassesThen
      (db_open b false false (some db₁.idx.bytes) (some db₁.dat.bytes))
      3
      5
      db₁.idx.bytes
      db₁.dat.bytes
      ((a, hello ++ 0 ∷ []) ∷ [])
open-pass_example =
    open-pass b db₁.idx.bytes db₁.dat.bytes false (λ e. hello) (entry₁ ∷ []) 3 5 records₁
      (refl, refl, tt) (omega arith) (omega arith)

hash-weights_example : hash a ≡ 97
unfolding text
hash-weights_example = hash-weights a (omega arith, tt) (omega arith)
