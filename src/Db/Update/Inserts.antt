-- ===== src/Db/Update/Inserts.antt =====
-- A record with a key and a text, put at the head of the key's chain.
use mathlib.Core.Option
use somenote.Common.{
  ℕ, ◌+◌, ◌≤◌, ◌≡◌, ◌≢◌, sym, ap, ◌∙◌, none, some, true, false, Bool-cases, List, [], ◌∷◌, arith,
  inl, inr, length, subst, if◌then◌else◌,
}
use somenote.Libc.Text.{text, NoNull, Lacks, same_text, same_text_refl, text_self}
use somenote.Libc.Decimal.{decimal, long_max}
use somenote.Libc.Decimal.Width.{length-decimal_pos}
use somenote.Db.State.{sep, idxlen_max, datlen_max, ptr_max, Db, Run, ok}
use somenote.Db.Index.Entry.{Entry, IsEntry, line}
use somenote.Db.Search.Chain.{Links, link_of, has_key}
use somenote.Db.Table.{Table, Holds, FreshKey, bucket, lookup, offset_of}
use somenote.Db.Table.Put.{put_self, put_ne, eq_or_ne}
use somenote.Db.Table.Push.{pushed}
use somenote.Db.Table.Lookup.{has_key-ne}
use somenote.Db.Update.Blank.{length-line}
use somenote.Db.Update.Forget.{bucket_of_text}

-- A key and a text that `db_store` can put into a record at the end of the data file.
pub record Fits (datoff : ℕ) (key text' : List ℕ) : Type 0 where
  pub key_null : NoNull key
  pub key_sep : Lacks sep key
  pub key_some : 1 ≤ length key
  pub text_null : NoNull text'
  pub text_some : 1 ≤ length text'
  pub text_max : length text' + 1 ≤ datlen_max
  pub off_max : datoff ≤ long_max
  pub record_max :
      length key + length (decimal datoff) + length (decimal (length text' + 1)) + 3 ≤ idxlen_max

-- The record of a key and a text at an offset of the data file.
abbrev pub record_for : List ℕ → List ℕ → ℕ → ℕ → Entry
record_for key text' next datoff = record {
  next = next;
  key = key;
  datoff = datoff;
  datlen = length text' + 1;
}

pub record_for-IsEntry :
    (key text' : List ℕ) (next datoff : ℕ)
    → Fits datoff key text'
    → next ≤ ptr_max
    → IsEntry (record_for key text' next datoff)
record_for-IsEntry key text' next datoff h n = record {
  next_max = n;
  key_null = h.key_null;
  key_sep = h.key_sep;
  datoff_max = h.off_max;
  datlen_min = omega arith;
  datlen_max = h.text_max;
  line_min =
      omega
        (arith, len, h.key_some, length-decimal_pos datoff, length-decimal_pos (length text' + 1));
  line_max = omega (arith, len, h.record_max);
}
  where
    len :
        length (line (record_for key text' next datoff))
        ≡ length key + length (decimal datoff) + length (decimal (length text' + 1)) + 3
    len = length-line (record_for key text' next datoff) h.key_null

-- The run returns, and the files then hold the dictionary with the text for the key.
pub record Inserts (run : Run (Unit {0})) (t : Table) (key text' : List ℕ) : Type 0 where
  pub after : Db
  pub table : Table
  pub returns : run ≡ ok tt after
  pub holds : Holds after table
  pub there : (k : List ℕ) → text k ≡ text key → lookup table k ≡ some text'
  pub kept : (k : List ℕ) → text k ≢ text key → lookup table k ≡ lookup t k

-- A chain without a record of the key has no such key.
pub FreshKey-of_none :
    (key : List ℕ) (xs : Links) → NoNull key → link_of (has_key key) xs ≡ none → FreshKey key xs
FreshKey-of_none key [] n h = tt
FreshKey-of_none key ((off, e) ∷ xs) n h = elim (Bool-cases (has_key key e)) [
  | inl found ↦ let h' : some (off, e) ≡ none = rw found at h in absurd (some_ne_none (off, e) h')
  | inr other ↦
      let h' : link_of (has_key key) xs ≡ none = rw other at h in
      (
        λ same. absurd (not_false (subst (λ b. b ≡ false) (found_key same) other)),
        FreshKey-of_none key xs n h',
      )
]
  where
    some_ne_none : (l : ℕ × Entry) → some l ≡ none → ⊥
    some_ne_none l q = cc

    not_false : true ≡ false → ⊥
    not_false q = cc

    found_key : e.key ≡ key → has_key key e ≡ true
    found_key same =
        ap (λ s. same_text s (text key)) (same ∙ sym (text_self key n)) ∙ same_text_refl (text key)

module _ (u : Table) (key : List ℕ) (x : ℕ) (e : Entry) (clean : NoNull key)
    (named : e.key ≡ key) where
  abbrev t' : Table
  t' = pushed (bucket key) x e u

  -- The key has the data of the slot.
  pub lookup-pushed : (k : List ℕ) → text k ≡ text key → lookup t' k ≡ some (u.content x)
  lookup-pushed k h =
      ap (λ b. Option.map u.content (offset_of (has_key k) (t'.chain b))) (bucket_of_text k key h)
      ∙ ap (λ xs. Option.map u.content (offset_of (has_key k) xs))
          (put_self (bucket key) ((x, e) ∷ u.chain (bucket key)) u.chain)
      ∙ ap
          (λ b.
            Option.map u.content
              (if b then some x else offset_of (has_key k) (u.chain (bucket key))))
          first_is_it
    where
      first_is_it : has_key k e ≡ true
      first_is_it =
          ap (λ s. same_text s (text k)) (named ∙ sym (text_self key clean) ∙ sym h)
          ∙ same_text_refl (text k)

  -- Any other key has what it had.
  pub lookup-pushed_ne : (k : List ℕ) → text k ≢ text key → lookup t' k ≡ lookup u k
  lookup-pushed_ne k h = elim (eq_or_ne (bucket k) (bucket key)) [
    | inl same ↦
        ap (λ b. Option.map u.content (offset_of (has_key k) (t'.chain b))) same
        ∙ ap (λ xs. Option.map u.content (offset_of (has_key k) xs))
            (put_self (bucket key) ((x, e) ∷ u.chain (bucket key)) u.chain)
        ∙ ap
            (λ b.
              Option.map u.content
                (if b then some x else offset_of (has_key k) (u.chain (bucket key))))
            not_it
        ∙ ap (λ b. Option.map u.content (offset_of (has_key k) (u.chain b))) (sym same)
    | inr other ↦
        ap (λ xs. Option.map u.content (offset_of (has_key k) xs))
          (put_ne (bucket key) ((x, e) ∷ u.chain (bucket key)) u.chain (bucket k) other)
  ]
    where
      not_it : has_key k e ≡ false
      not_it = has_key-ne k e (λ q. h (sym q ∙ named ∙ sym (text_self key clean)))
