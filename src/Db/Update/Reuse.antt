-- ===== src/Db/Update/Reuse.antt =====
-- A record put into the slot of a free record with the same lengths.
use mathlib.Core.Option
use somenote.Common.{
  ℕ, ◌+◌, ◌*◌, ◌≤◌, ◌<◌, ◌≡◌, refl, sym, ap, ◌∙◌, none, some, Bool, true, List, [], ◌∷◌, ◌++◌,
  arith, length, subst,
}
use somenote.Libc.Int.{pos}
use somenote.Libc.File.{overwrite}
use somenote.Libc.Text.{text_self}
use somenote.Libc.Decimal.{padded, decimal}
use somenote.Db.State.{ptr_sz, ptr_max, newline, Db, seek_set, free_off}
use somenote.Db.Index.Entry.{Entry, IsEntry, encode, EntryAt, EntryAt-overwrite, length-encode}
use somenote.Db.Index.Pointer.{with_idx, writeptr-ok}
use somenote.Db.Index.Write.{writeidx_as, after_entry}
use somenote.Db.Data.RoundTrip.{writedat_as}
use somenote.Db.Search.Chain.{first, link_of, has_key}
use somenote.Db.Search.Free.{has_lengths}
use somenote.Db.Table.{Table, slot_of, IsTable, Holds, nobody, bucket, offset_of, FreshKey}
use somenote.Db.Table.Unlink.{unlink, link_place, link_of-slot, Fresh-of_owner}
use somenote.Db.Table.Put.{put_self, put_ne}
use somenote.Db.Table.Removal.{removed}
use somenote.Db.Table.Removed.{IsTable-removed}
use somenote.Db.Table.Refill.{refilled, IsTable-refilled}
use somenote.Db.Table.Push.{pushed, IsTable-entry, IsTable-pushed}
use somenote.Db.Table.Search.{bucket-lt}
use somenote.Db.Table.Lookup.{offset_of-content}
use somenote.Db.Table.Free.{after_findfree}
use somenote.Db.Update.{reuse_record}
use somenote.Db.Update.Blank.{length-line, length-line_same}
use somenote.Db.Update.Inserts.{
  Fits, record_for, record_for-IsEntry, Inserts, FreshKey-of_none, lookup-pushed, lookup-pushed_ne,
}

has_lengths_sound :
    (k n : ℕ) (e : Entry) → has_lengths k n e ≡ true → (length e.key ≡ k) × (e.datlen ≡ n)
has_lengths_sound k n e h = ground arith

-- What fits at the end of the data file also fits at the place of a free record of its lengths.
Fits-there :
    (at : ℕ) (key text' : List ℕ) (d : Entry)
    → Fits at key text'
    → IsEntry d
    → length d.key ≡ length key
    → d.datlen ≡ length text' + 1
    → Fits d.datoff key text'
Fits-there at key text' d h v k n = record {
  key_null = h.key_null;
  key_sep = h.key_sep;
  key_some = h.key_some;
  text_null = h.text_null;
  text_some = h.text_some;
  text_max = h.text_max;
  off_max = v.datoff_max;
  record_max =
      omega (arith, v.line_max, length-line d v.key_null, k, ap (λ m. length (decimal m)) n);
}

module _ (s : Db) (t : Table) (v : Holds s t) (key text' : List ℕ)
    (place : s.chainoff ≡ bucket key * ptr_sz)
    (missing : link_of (has_key key) (t.chain (bucket key)) ≡ none) (at : ℕ)
    (fits : Fits at key text') (o : ℕ) (d : Entry)
    (found : link_of (has_lengths (length key) (length text' + 1)) (t.chain 0) ≡ some (o, d)) where
  abbrev lens : Entry → Bool
  lens = has_lengths (length key) (length text' + 1)

  abbrev head : ℕ
  head = first (t.chain (bucket key))

  -- The pointer that led to the free record.
  abbrev free_place : ℕ
  free_place = link_place lens (t.chain 0) free_off

  abbrev e : Entry
  e = record_for key text' head d.datoff

  the_slot :
      (t.slot o ≡ some (slot_of d))
      × (t.owner o ≡ 0)
      × (0 < o)
      × EntryAt s.idx.bytes o d
      × (lens d ≡ true)
  the_slot =
      link_of-slot s.idx.bytes s.dat.bytes t v.table lens 0 (t.chain 0) o d found
        (v.table.linked 0 (omega arith)) (v.table.owned 0 (omega arith))

  o_max : o ≤ ptr_max
  o_max = (v.table.in_idx o (slot_of d) the_slot.0).1

  len_key : length d.key ≡ length key
  len_key = (has_lengths_sound (length key) (length text' + 1) d the_slot.4).0

  len_text : d.datlen ≡ length text' + 1
  len_text = (has_lengths_sound (length key) (length text' + 1) d the_slot.4).1

  head_max : head ≤ ptr_max
  head_max = (v.table.heads (bucket key) (bucket-lt key)).0

  valid : IsEntry e
  valid =
      record_for-IsEntry key text' head d.datoff
        (Fits-there at key text' d fits the_slot.3.valid len_key len_text) head_max

  slot_e : t.slot o ≡ some (slot_of e)
  slot_e =
      the_slot.0
      ∙ ap (λ (n : ℕ). some (record { size = n; datoff = d.datoff; datlen = d.datlen }))
          (omega (
            arith,
            length-encode d the_slot.3.valid,
            length-encode e valid,
            length-line_same e d fits.key_null the_slot.3.valid.key_null (sym len_key) refl
                (sym len_text),
          ))
      ∙ ap (λ (n : ℕ). some (record { size = length (encode e); datoff = d.datoff; datlen = n }))
          len_text

  abbrev s₀ : Db
  s₀ = after_findfree o free_place d s

  abbrev s₁ : Db
  s₁ = record s₀ {
    dat = record {
      bytes = overwrite s.dat.bytes d.datoff (text' ++ newline ∷ []);
      offset = d.datoff + length (text' ++ newline ∷ []);
    };
    datoff = d.datoff;
    datlen = length text' + 1;
  }

  abbrev s₂ : Db
  s₂ = after_entry e (seek_set o) s₁

  abbrev idx_now : ℕ → List ℕ
  idx_now q = overwrite s₂.idx.bytes q (padded ptr_sz o)

  abbrev t₁ : Table
  t₁ = refilled o text' (removed lens 0 o t)

  same_chain : (k : List ℕ) → t₁.chain (bucket k) ≡ t.chain (bucket k)
  same_chain k = put_ne 0 (unlink lens (t.chain 0)) t.chain (bucket k) (omega arith)

  refilled-IsTable : IsTable s₀.idx.bytes s₁.dat.bytes t₁
  refilled-IsTable =
      IsTable-refilled s₀.idx.bytes s.dat.bytes (removed lens 0 o t)
        (IsTable-removed s.idx.bytes s.dat.bytes t v.table lens 0 o d (omega arith) found) o
        (slot_of e) text' slot_e refl fits.text_null

  pushed-IsTable : IsTable (idx_now s.chainoff) s₁.dat.bytes (pushed (bucket key) o e t₁)
  pushed-IsTable =
      subst (λ q. IsTable (idx_now q) s₁.dat.bytes (pushed (bucket key) o e t₁)) (sym place)
        (IsTable-pushed s₂.idx.bytes s₁.dat.bytes t₁
          (IsTable-entry s₀.idx.bytes s₁.dat.bytes t₁ refilled-IsTable o e slot_e
            (put_self o nobody t.owner))
          o e slot_e (put_self o nobody t.owner) (bucket key) (bucket-lt key)
          (EntryAt-overwrite s₀.idx.bytes o e valid) (ap first (sym (same_chain key)))
          (λ k h.
            subst (FreshKey key) (sym (same_chain key))
              (FreshKey-of_none key (t.chain (bucket key)) fits.key_null missing)))

  pub reuse_record_lem : Inserts (reuse_record key text' (pos head) s₀) t key text'
  unfolding reuse_record
  reuse_record_lem = record {
    after = with_idx (idx_now s.chainoff) (s.chainoff + ptr_sz) s₂;
    table = pushed (bucket key) o e t₁;
    returns = rw (
      writedat_as text' text' (length text' + 1) (seek_set d.datoff) s₀
          (text_self text' fits.text_null) refl,
      writeidx_as key key head (seek_set o) s₁ (text_self key fits.key_null) valid,
      writeptr-ok s.chainoff o s₂ o_max,
    );
    holds = record { hashoff = v.hashoff; nhash = v.nhash; table = pushed-IsTable };
    there = λ k h.
        lookup-pushed t₁ key o e fits.key_null refl k h ∙ ap some (put_self o text' t.content);
    kept = λ k h.
        lookup-pushed_ne t₁ key o e fits.key_null refl k h
        ∙ ap (λ xs. Option.map t₁.content (offset_of (has_key k) xs)) (same_chain k)
        ∙ offset_of-content (has_key k) (t.chain (bucket k)) o text' t.content (
            Fresh-of_owner t (bucket k) o (t.chain (bucket k))
              (v.table.owned (bucket k) (bucket-lt k))
              (λ same. absurd (omega (arith, same, the_slot.1))));
  }
