-- ===== src/Db/Index/Entry.antt =====
-- What a record of the index file says, and how its bytes stand in the file.
use somenote.Common.{
  ℕ, ◌+◌, ◌≤◌, ◌≡◌, sym, ap, ◌∙◌, List, [], ◌∷◌, ◌++◌, arith, length, take, drop, take-append,
  drop-append, length-append, take_all, ◌⊎◌, inl, inr,
}
use somenote.Libc.File.{
  slice, overwrite, slice-slice, slice-overwrite, slice-overwrite_before, slice-overwrite_after,
}
use somenote.Libc.Text.{Lacks, NoNull}
use somenote.Libc.Decimal.{decimal, padded, long_max}
use somenote.Libc.Decimal.Width.{length-padded_fits}
use somenote.Db.State
use somenote.Db.State.{ptr_sz, ptr_max, sep, idxlen_sz, idxlen_min, idxlen_max}
use somenote.Db.Index.{record_text}
use somenote.Db.Index.Pointer.{length-padded_ptr}

-- What an index record says: the next record of its chain, the key, where the data is.
pub record Entry : Type 0 where
  pub next : ℕ
  pub key : List ℕ
  pub datoff : ℕ
  pub datlen : ℕ

abbrev pub line : Entry → List ℕ
line e = record_text e.key e.datoff e.datlen

-- The bytes of a record.
abbrev pub encode : Entry → List ℕ
encode e = padded ptr_sz e.next ++ padded idxlen_sz (length (line e)) ++ line e

-- What a record must be for `_db_readidx` to take it back.
pub record IsEntry (e : Entry) : Type 0 where
  pub next_max : e.next ≤ ptr_max
  pub key_null : NoNull e.key
  pub key_sep : Lacks sep e.key
  pub datoff_max : e.datoff ≤ long_max
  pub datlen_min : 1 ≤ e.datlen
  pub datlen_max : e.datlen ≤ State.datlen_max
  pub line_min : idxlen_min ≤ length (line e)
  pub line_max : length (line e) ≤ idxlen_max

-- The text that `_db_readidx` leaves in the buffer.
abbrev pub split_text : Entry → List ℕ
split_text e = e.key ++ 0 ∷ (decimal e.datoff ++ 0 ∷ (decimal e.datlen ++ 0 ∷ []))

abbrev pub open_text : Entry → List ℕ
open_text e = e.key ++ sep ∷ (decimal e.datoff ++ sep ∷ (decimal e.datlen ++ 0 ∷ []))

-- The record stands at an offset.
pub record EntryAt (f : List ℕ) (off : ℕ) (e : Entry) : Type 0 where
  pub valid : IsEntry e
  pub bytes : slice f off (length (encode e)) ≡ encode e

module _ (e : Entry) (v : IsEntry e) where
  pub length-header : length (padded ptr_sz e.next ++ padded idxlen_sz (length (line e))) ≡ 11
  length-header = omega (
    arith,
    length-append (padded ptr_sz e.next) (padded idxlen_sz (length (line e))),
    length-padded_ptr e.next v.next_max,
    length-padded_fits 3 (length (line e)) (omega (arith, v.line_max)),
  )

  pub length-encode : length (encode e) ≡ 11 + length (line e)
  length-encode = omega (
    arith,
    length-append (padded ptr_sz e.next ++ padded idxlen_sz (length (line e))) (line e),
    length-header,
  )

module _ (f : List ℕ) (off : ℕ) (e : Entry) (at : EntryAt f off e) where
  pub header-slice : slice f off 11 ≡ padded ptr_sz e.next ++ padded idxlen_sz (length (line e))
  header-slice =
      let start : off + 0 ≡ off = omega arith in
      ap (λ k. slice f k 11) (sym start)
      ∙ sym (slice-slice f off (length (encode e)) 0 11 (omega (arith, length-encode e at.valid)))
      ∙ ap (λ t. slice t 0 11) at.bytes
      ∙ ap (λ n. take n (encode e)) (sym (length-header e at.valid))
      ∙ take-append (padded ptr_sz e.next ++ padded idxlen_sz (length (line e))) (line e)

  pub line-slice : slice f (off + 11) (length (line e)) ≡ line e
  line-slice =
      sym (
        slice-slice f off (length (encode e)) 11 (length (line e))
          (omega (arith, length-encode e at.valid)))
      ∙ ap (λ t. slice t 11 (length (line e))) at.bytes
      ∙ ap (λ n. take (length (line e)) (drop n (encode e))) (sym (length-header e at.valid))
      ∙ ap (take (length (line e)))
          (drop-append (padded ptr_sz e.next ++ padded idxlen_sz (length (line e))) (line e))
      ∙ take_all (length (line e)) (line e) (omega arith)

-- A record that was written stands there.
pub EntryAt-overwrite :
    (f : List ℕ) (off : ℕ) (e : Entry) → IsEntry e → EntryAt (overwrite f off (encode e)) off e
EntryAt-overwrite f off e v = record { valid = v; bytes = slice-overwrite f off (encode e) }

-- A write elsewhere leaves a record alone.
pub EntryAt-overwrite_ne :
    (f : List ℕ) (off : ℕ) (e : Entry) (at : ℕ) (bs : List ℕ)
    → at ≤ length f
    → (off + length (encode e) ≤ at) ⊎ (at + length bs ≤ off)
    → EntryAt f off e
    → EntryAt (overwrite f at bs) off e
EntryAt-overwrite_ne f off e at bs g (inl before) h = record {
  valid = h.valid;
  bytes = slice-overwrite_before f at bs off (length (encode e)) before g ∙ h.bytes;
}
EntryAt-overwrite_ne f off e at bs g (inr after) h = record {
  valid = h.valid;
  bytes = slice-overwrite_after f at bs off (length (encode e)) after ∙ h.bytes;
}
