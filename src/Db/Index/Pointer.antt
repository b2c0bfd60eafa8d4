-- ===== src/Db/Index/Pointer.antt =====
-- A pointer in the index file: seven characters.
use somenote.Common.{
  ℕ, ◌+◌, ◌≤◌, ◌≡◌, sym, ap, ◌∙◌, List, [], drop-nil, arith, le→leb, length, append-nil, ◌⊎◌, inl,
  inr, subst,
}
use somenote.Libc.Int.{pos}
use somenote.Libc.File
use somenote.Libc.File.{
  slice, overwrite, slice-overwrite, slice-overwrite_before, slice-overwrite_after,
}
use somenote.Libc.Decimal.{padded, atol}
use somenote.Libc.Decimal.RoundTrip.{atol-padded}
use somenote.Libc.Decimal.Width.{length-padded_fits}
use somenote.Db.State.{ptr_sz, ptr_max, Db, ok, dump, ◌>>=◌}
use somenote.Db.Index.{readptr, writeptr}

-- The pointer `v` stands at an offset.
abbrev pub PtrAt : List ℕ → ℕ → ℕ → Type 0
PtrAt f off v = (v ≤ ptr_max) × (slice f off ptr_sz ≡ padded ptr_sz v)

-- `idx` with other bytes and offset
abbrev pub with_idx : List ℕ → ℕ → Db → Db
with_idx bytes offset db = record db { idx = record { bytes = bytes; offset = offset } }

pub length-padded_ptr : (v : ℕ) → v ≤ ptr_max → length (padded ptr_sz v) ≡ ptr_sz
length-padded_ptr v h = length-padded_fits 6 v (omega arith)

atol-padded_ptr : (v : ℕ) → v ≤ ptr_max → atol (padded ptr_sz v) ≡ pos v
atol-padded_ptr v h =
    ap atol (sym (append-nil (padded ptr_sz v))) ∙ atol-padded 7 v [] (omega arith) tt

-- A pointer that stands in the file is read.
pub readptr-PtrAt :
    (off v : ℕ) (db : Db)
    → PtrAt db.idx.bytes off v
    → readptr (pos off) db ≡ ok (pos v) (with_idx db.idx.bytes (off + ptr_sz) db)
unfolding readptr File.seek_set File.read
readptr-PtrAt off v db h = rw (h.1, length-padded_ptr v h.0, atol-padded_ptr v h.0)

-- There is no pointer in an empty file.
pub readptr-empty :
    (off : ℕ) (db : Db) → db.idx.bytes ≡ [] → readptr (pos off) db ≡ dump "_db_readptr:read error"
unfolding readptr File.seek_set File.read
readptr-empty off db h = rw (h, drop-nil {A = ℕ} off)

-- A pointer up to PTR_MAX is written.
pub writeptr-ok :
    (off v : ℕ) (db : Db)
    → v ≤ ptr_max
    → writeptr (pos off) (pos v) db
      ≡ ok tt (with_idx (overwrite db.idx.bytes off (padded ptr_sz v)) (off + ptr_sz) db)
unfolding writeptr File.seek_set File.write
writeptr-ok off v db h = rw (le→leb v ptr_max h, length-padded_ptr v h)

-- A pointer that was written stands there.
pub PtrAt-overwrite :
    (f : List ℕ) (off v : ℕ) → v ≤ ptr_max → PtrAt (overwrite f off (padded ptr_sz v)) off v
PtrAt-overwrite f off v h = (
  h,
  subst (λ n. slice (overwrite f off (padded ptr_sz v)) off n ≡ padded ptr_sz v)
      (length-padded_ptr v h) (slice-overwrite f off (padded ptr_sz v)),
)

-- A write elsewhere leaves a pointer alone.
pub PtrAt-overwrite_ne :
    (f : List ℕ) (off v at : ℕ) (bs : List ℕ)
    → at ≤ length f
    → (off + ptr_sz ≤ at) ⊎ (at + length bs ≤ off)
    → PtrAt f off v
    → PtrAt (overwrite f at bs) off v
PtrAt-overwrite_ne f off v at bs g (inl before) h =
    (h.0, slice-overwrite_before f at bs off ptr_sz before g ∙ h.1)
PtrAt-overwrite_ne f off v at bs g (inr after) h =
    (h.0, slice-overwrite_after f at bs off ptr_sz after ∙ h.1)

-- For a pointer up to PTR_MAX, _db_readptr behind _db_writeptr returns it.
pub readptr-writeptr :
    (off v : ℕ) (db : Db)
    → v ≤ ptr_max
    → (writeptr (pos off) (pos v) >>= λ _. readptr (pos off)) db
      ≡ ok (pos v) (with_idx (overwrite db.idx.bytes off (padded ptr_sz v)) (off + ptr_sz) db)
readptr-writeptr off v db h = rw (writeptr-ok off v db h) (
    readptr-PtrAt off v (with_idx (overwrite db.idx.bytes off (padded ptr_sz v)) (off + ptr_sz) db)
      (PtrAt-overwrite db.idx.bytes off v h))
