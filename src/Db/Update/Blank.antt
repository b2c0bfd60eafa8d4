-- ===== src/Db/Update/Blank.antt =====
-- What `_db_dodelete` makes of the buffers, and of the record: spaces for its key and its data.
use somenote.Common.{
  ℕ, ◌+◌, ◌-◌, ◌≤◌, ◌≡◌, refl, ap, List, [], ◌∷◌, ◌++◌, arith, length, length-append,
  length-replicate, replicate, drop, drop-append,
}
use somenote.Libc.Text.{text, strlen, NoNull, Lacks-replicate, text_of_NoNull, text_self}
use somenote.Libc.Decimal.{decimal}
use somenote.Db.State.{space, sep, ptr_max}
use somenote.Db.Index.{record_text}
use somenote.Db.Index.Entry.{Entry, IsEntry, line, encode, split_text, length-encode}

abbrev pub blank_line : ℕ → List ℕ
blank_line n = replicate (n - 1) space

-- The record on the free list.
abbrev pub blank : Entry → ℕ → Entry
blank e free = record {
  next = free;
  key = replicate (length e.key) space;
  datoff = e.datoff;
  datlen = e.datlen;
}

pub length-line :
    (e : Entry)
    → NoNull e.key
    → length (line e) ≡ length e.key + length (decimal e.datoff) + length (decimal e.datlen) + 3
unfolding record_text
length-line e h = rw (text_self e.key h) (
    omega (
      arith,
      length-append e.key (sep ∷ (decimal e.datoff ++ sep ∷ (decimal e.datlen ++ 10 ∷ []))),
      length-append (decimal e.datoff) (sep ∷ (decimal e.datlen ++ 10 ∷ [])),
      length-append (decimal e.datlen) (10 ∷ []),
    ))

-- Records with keys of one length and with the same data are of one length.
pub length-line_same :
    (e u : Entry)
    → NoNull e.key
    → NoNull u.key
    → length e.key ≡ length u.key
    → e.datoff ≡ u.datoff
    → e.datlen ≡ u.datlen
    → length (line e) ≡ length (line u)
length-line_same e u h g k p q = omega (
  arith,
  length-line e h,
  length-line u g,
  ap (λ n. length (decimal n)) p,
  ap (λ n. length (decimal n)) q,
)

length-line-blank :
    (e : Entry) (free : ℕ) → NoNull e.key → length (line (blank e free)) ≡ length (line e)
length-line-blank e free h =
    length-line_same (blank e free) e (Lacks-replicate 0 (length e.key) space (omega arith)) h
      (length-replicate (length e.key) space) refl refl

pub blank-IsEntry : (e : Entry) (free : ℕ) → free ≤ ptr_max → IsEntry e → IsEntry (blank e free)
blank-IsEntry e free h v = record {
  next_max = h;
  key_null = Lacks-replicate 0 (length e.key) space (omega arith);
  key_sep = Lacks-replicate sep (length e.key) space (omega arith);
  datoff_max = v.datoff_max;
  datlen_min = v.datlen_min;
  datlen_max = v.datlen_max;
  line_min = omega (arith, v.line_min, length-line-blank e free v.key_null);
  line_max = omega (arith, v.line_max, length-line-blank e free v.key_null);
}

pub length-encode-blank :
    (e : Entry) (free : ℕ)
    → free ≤ ptr_max
    → IsEntry e
    → length (encode (blank e free)) ≡ length (encode e)
length-encode-blank e free h v = omega (
  arith,
  length-encode (blank e free) (blank-IsEntry e free h v),
  length-encode e v,
  length-line-blank e free v.key_null,
)

-- The text in the blanked data buffer.
pub text-blank_data : (n : ℕ) (r : List ℕ) → text (replicate (n - 1) space ++ 0 ∷ r) ≡ blank_line n
text-blank_data n r =
    text_of_NoNull (replicate (n - 1) space) r (Lacks-replicate 0 (n - 1) space (omega arith))

pub length-blank_line : (n : ℕ) → 1 ≤ n → length (blank_line n) + 1 ≡ n
length-blank_line n h = omega (arith, length-replicate (n - 1) space)

-- The text in the blanked key buffer.
pub text-blank_key :
    (e : Entry)
    → NoNull e.key
    → text (replicate (strlen (split_text e)) space ++ drop (strlen (split_text e)) (split_text e))
      ≡ replicate (length e.key) space
unfolding strlen
text-blank_key e h =
    rw
      (
        text_of_NoNull e.key (decimal e.datoff ++ 0 ∷ (decimal e.datlen ++ 0 ∷ [])) h,
        drop-append e.key (0 ∷ (decimal e.datoff ++ 0 ∷ (decimal e.datlen ++ 0 ∷ []))),
      )
      (text_of_NoNull (replicate (length e.key) space)
        (decimal e.datoff ++ 0 ∷ (decimal e.datlen ++ 0 ∷ []))
        (Lacks-replicate 0 (length e.key) space (omega arith)))
