-- ===== src/Db/Table/Bytes.antt =====
-- What a write into the index file leaves of a chain.
use somenote.Common.{
  ℕ, ◌+◌, ◌≤◌, ◌≡◌, ◌⊎◌, sym, ◌∙◌, List, [], ◌∷◌, ◌++◌, length, append_assoc, subst,
}
use somenote.Libc.File.{slice, overwrite, slice-overwrite_prefix}
use somenote.Libc.Decimal.{padded}
use somenote.Db.State.{ptr_sz, ptr_max, idxlen_sz}
use somenote.Db.Index.Entry.{
  Entry, IsEntry, encode, line, EntryAt, EntryAt-overwrite_ne, length-encode,
}
use somenote.Db.Index.Pointer.{length-padded_ptr}
use somenote.Db.Search.Chain.{Links, Chain}

-- The bytes of a chain's records and those written do not meet.
abbrev pub Apart : ℕ → ℕ → Links → Type 0
Apart at n [] = Unit {0}
Apart at n ((off, e) ∷ xs) = ((off + length (encode e) ≤ at) ⊎ (at + n ≤ off)) × Apart at n xs

pub Chain-overwrite :
    (f : List ℕ) (at : ℕ) (bs : List ℕ) (xs : Links)
    → at ≤ length f
    → Apart at (length bs) xs
    → Chain f xs
    → Chain (overwrite f at bs) xs
Chain-overwrite f at bs [] h a c = tt
Chain-overwrite f at bs ((off, e) ∷ xs) h a c =
    (c.0, EntryAt-overwrite_ne f off e at bs h a.0 c.1, c.2, Chain-overwrite f at bs xs h a.1 c.3)

abbrev pub with_next : Entry → ℕ → Entry
with_next e n = record e { next = n }

with_next-IsEntry : (e : Entry) (n : ℕ) → n ≤ ptr_max → IsEntry e → IsEntry (with_next e n)
with_next-IsEntry e n h v = record {
  next_max = h;
  key_null = v.key_null;
  key_sep = v.key_sep;
  datoff_max = v.datoff_max;
  datlen_min = v.datlen_min;
  datlen_max = v.datlen_max;
  line_min = v.line_min;
  line_max = v.line_max;
}

pub length-encode-with_next :
    (e : Entry) (n : ℕ)
    → n ≤ ptr_max
    → IsEntry e
    → length (encode (with_next e n)) ≡ length (encode e)
length-encode-with_next e n h v =
    length-encode (with_next e n) (with_next-IsEntry e n h v) ∙ sym (length-encode e v)

-- A new pointer in a record.
pub EntryAt-with_next :
    (f : List ℕ) (off : ℕ) (e : Entry) (n : ℕ)
    → n ≤ ptr_max
    → EntryAt f off e
    → EntryAt (overwrite f off (padded ptr_sz n)) off (with_next e n)
EntryAt-with_next f off e n h at = record {
  valid = with_next-IsEntry e n h at.valid;
  bytes =
      subst (λ g. slice (overwrite f off (padded ptr_sz n)) off (length g) ≡ g)
        (sym (append_assoc (padded ptr_sz n) lenf (line e)))
        (slice-overwrite_prefix f off (padded ptr_sz e.next) (padded ptr_sz n) (lenf ++ line e)
          (length-padded_ptr n h ∙ sym (length-padded_ptr e.next at.valid.next_max))
          (subst (λ g. slice f off (length g) ≡ g)
            (append_assoc (padded ptr_sz e.next) lenf (line e)) at.bytes));
}
  where
    lenf : List ℕ
    lenf = padded idxlen_sz (length (line e))
