-- ===== src/Db/Index/Record.antt =====
-- Reading and writing a record of the index file.
use somenote.Common.{
  ℕ, zero, suc, ◌+◌, ◌-◌, ◌≤◌, ◌<◌, ◌≡◌, refl, sym, ap, ◌∙◌, false, List, [], ◌∷◌, ◌++◌, arith,
  le→leb, eq→==, length, take, drop, set, get_or, append-nil, append_assoc, inl, inr, set-append,
  set-append_past, get_or-append, take-append, drop-append, drop-append_cons, drop-nil,
  length-append,
}
use somenote.Libc.Int.{pos, negsuc, is_zero}
use somenote.Libc.File
use somenote.Libc.File.{slice, overwrite, slice-overwrite}
use somenote.Libc.Text.{Lacks, NoNull, text_self, strchr-append, strchr-none}
use somenote.Libc.Decimal.{decimal, padded, atol}
use somenote.Libc.Decimal.RoundTrip.{atol-padded, atol-decimal}
use somenote.Libc.Decimal.Width.{Lacks-decimal}
use somenote.Db.State.{ptr_sz, sep, newline, idxlen_sz, idxlen_min, idxlen_max, datlen_max, Db, ok}
use somenote.Db.Index.{parse_record, readidx_body, readidx, record_text}
use somenote.Db.Index.Entry.{
  Entry, line, encode, IsEntry, split_text, open_text, EntryAt, length-header, length-encode,
  header-slice, line-slice,
}
use somenote.Db.Index.Pointer.{length-padded_ptr}

module _ (e : Entry) (v : IsEntry e) where
  Lacks-digits : (x n : ℕ) → x ≤ 47 → Lacks x (decimal n)
  Lacks-digits x n h = Lacks-decimal x n (inl (omega arith))

  parse_record-open_text :
      (db : Db)
      → parse_record (open_text e) db
        ≡ ok tt (record db { idxbuf = split_text e; datoff = e.datoff; datlen = e.datlen })
  unfolding parse_record
  parse_record-open_text db = rw (
    strchr-append e.key tail₁ sep v.key_null v.key_sep,
    drop-append_cons e.key tail₁ sep,
    strchr-append (decimal e.datoff) tail₂ sep (Lacks-digits 0 e.datoff (omega arith))
        (Lacks-decimal sep e.datoff (inr (omega arith))),
    drop-append_cons (decimal e.datoff) tail₂ sep,
    strchr-none (decimal e.datlen) [] sep (Lacks-digits 0 e.datlen (omega arith))
        (Lacks-decimal sep e.datlen (inr (omega arith))) (omega arith),
    set-append (decimal e.datoff) tail₂ sep 0,
    atol-decimal e.datoff (0 ∷ tail₂) v.datoff_max refl,
    atol-decimal e.datlen (0 ∷ []) (omega (arith, v.datlen_max)) refl,
    le→leb 1 e.datlen v.datlen_min,
    le→leb e.datlen datlen_max v.datlen_max,
    set-append e.key tail₁ sep 0,
    set-append_past e.key tail₁ 0 (length (decimal e.datoff)) 0,
    set-append (decimal e.datoff) tail₂ sep 0,
  )
    where
      tail₂ : List ℕ
      tail₂ = decimal e.datlen ++ 0 ∷ []

      tail₁ : List ℕ
      tail₁ = decimal e.datoff ++ sep ∷ tail₂

-- The state after the record is read.
abbrev pub after_readidx : ℕ → Entry → Db → Db
after_readidx off e db = record db {
  idx = record { bytes = db.idx.bytes; offset = off + length (encode e) };
  idxbuf = split_text e;
  idxoff = off;
  idxlen = length (line e);
  datoff = e.datoff;
  datlen = e.datlen;
  ptrval = pos e.next;
}

line-open_text :
    (e : Entry)
    → NoNull e.key
    → (t : List ℕ) × (line e ≡ t ++ newline ∷ []) × (open_text e ≡ t ++ 0 ∷ [])
unfolding record_text
line-open_text e h = (
  e.key ++ sep ∷ (decimal e.datoff ++ sep ∷ decimal e.datlen),
  rw (text_self e.key h) (joined newline),
  joined 0,
)
  where
    joined :
        (c : ℕ)
        → e.key ++ sep ∷ (decimal e.datoff ++ sep ∷ (decimal e.datlen ++ c ∷ []))
          ≡ (e.key ++ sep ∷ (decimal e.datoff ++ sep ∷ decimal e.datlen)) ++ c ∷ []
    joined c = simp append_assoc

-- The newline of a record is found, and made a null byte.
line_end :
    (e : Entry)
    → NoNull e.key
    → (get_or (line e) (length (line e) - 1) 0 ≡ newline)
      × (set (line e) (length (line e) - 1) 0 ≡ open_text e)
line_end e h =
    let (t, p, q) = line-open_text e h in
    let n : length (t ++ newline ∷ []) - 1 ≡ length t =
      omega (arith, length-append t (newline ∷ [])) in
    rw (p, q, n) (get_or-append t [] newline 0, set-append t [] newline 0)

-- The fields of a header are read back.
header_next :
    (e : Entry)
    → IsEntry e
    → atol (take ptr_sz (padded ptr_sz e.next ++ padded idxlen_sz (length (line e)))) ≡ pos e.next
header_next e v =
    ap atol (
      ap (λ n. take n (padded ptr_sz e.next ++ padded idxlen_sz (length (line e))))
        (sym (length-padded_ptr e.next v.next_max))
      ∙ take-append (padded ptr_sz e.next) (padded idxlen_sz (length (line e)))
      ∙ sym (append-nil (padded ptr_sz e.next)))
    ∙ atol-padded ptr_sz e.next [] (omega (arith, v.next_max)) tt

header_len :
    (e : Entry)
    → IsEntry e
    → atol (drop ptr_sz (padded ptr_sz e.next ++ padded idxlen_sz (length (line e))))
      ≡ pos (length (line e))
header_len e v =
    ap atol (
      ap (λ n. drop n (padded ptr_sz e.next ++ padded idxlen_sz (length (line e))))
        (sym (length-padded_ptr e.next v.next_max))
      ∙ drop-append (padded ptr_sz e.next) (padded idxlen_sz (length (line e)))
      ∙ sym (append-nil (padded idxlen_sz (length (line e)))))
    ∙ atol-padded idxlen_sz (length (line e)) [] (omega (arith, v.line_max)) tt

readidx_body-line :
    (e : Entry) (db : Db)
    → IsEntry e
    → slice db.idx.bytes db.idx.offset (length (line e)) ≡ line e
    → readidx_body (padded ptr_sz e.next ++ padded idxlen_sz (length (line e))) db
      ≡ ok (pos e.next) (record db {
        idx = record { bytes = db.idx.bytes; offset = db.idx.offset + length (line e) };
        idxbuf = split_text e;
        idxlen = length (line e);
        datoff = e.datoff;
        datlen = e.datlen;
        ptrval = pos e.next;
      })
unfolding readidx_body File.read
readidx_body-line e db v h = rw (
  header_next e v,
  header_len e v,
  le→leb idxlen_min (length (line e)) v.line_min,
  le→leb (length (line e)) idxlen_max v.line_max,
  h,
  eq→== (length (line e)) (length (line e)) refl,
  (line_end e v.key_null).0,
  (line_end e v.key_null).1,
  parse_record-open_text e v,
)

is_zero-pos : (n : ℕ) → 0 < n → is_zero (pos n) ≡ false
is_zero-pos zero h = absurd (omega arith)
is_zero-pos (suc n) h = refl

-- `_db_readidx` at a record that stands in the file.
pub readidx-EntryAt :
    (off : ℕ) (e : Entry) (db : Db)
    → 0 < off
    → EntryAt db.idx.bytes off e
    → readidx (pos off) db ≡ ok (pos e.next) (after_readidx off e db)
unfolding readidx File.seek_set File.read
readidx-EntryAt off e db h at =
    let sum : off + (11 + length (line e)) ≡ off + 11 + length (line e) = omega arith in
    rw (
      is_zero-pos off h,
      header-slice db.idx.bytes off e at,
      length-header e at.valid,
      length-encode e at.valid,
      sum,
      readidx_body-line e
          (record db { idx = record { bytes = db.idx.bytes; offset = off + 11 }; idxoff = off })
          at.valid (line-slice db.idx.bytes off e at),
    )

-- `_db_readidx` at offset 0 reads the record at which the file stands.
pub readidx-next :
    (e : Entry) (db : Db)
    → EntryAt db.idx.bytes db.idx.offset e
    → readidx (pos 0) db ≡ ok (pos e.next) (after_readidx db.idx.offset e db)
unfolding readidx File.seek_set File.read
readidx-next e db at =
    let sum : db.idx.offset + (11 + length (line e)) ≡ db.idx.offset + 11 + length (line e) =
      omega arith in
    rw (
      header-slice db.idx.bytes db.idx.offset e at,
      length-header e at.valid,
      length-encode e at.valid,
      sum,
      readidx_body-line e
          (record db {
            idx = record { bytes = db.idx.bytes; offset = db.idx.offset + 11 };
            idxoff = db.idx.offset;
          })
          at.valid (line-slice db.idx.bytes db.idx.offset e at),
    )

drop_end : (n : ℕ) (xs : List ℕ) → length xs ≤ n → drop n xs ≡ []
drop_end n [] h = drop-nil n
drop_end zero (x ∷ xs) h = absurd (omega arith)
drop_end (suc n) (x ∷ xs) h = drop_end n xs (omega arith)

-- At the end of the file it returns -1.
pub readidx-end :
    (db : Db)
    → length db.idx.bytes ≤ db.idx.offset
    → readidx (pos 0) db
      ≡ ok (negsuc 0) (record db {
        idx = record { bytes = db.idx.bytes; offset = db.idx.offset + 0 };
        idxoff = db.idx.offset;
      })
unfolding readidx File.seek_set File.read
readidx-end db h = rw (drop_end db.idx.offset db.idx.bytes h)
