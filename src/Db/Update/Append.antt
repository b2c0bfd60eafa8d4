-- ===== src/Db/Update/Append.antt =====
-- A record appended to the two files, at the head of the chain of its key.
use somenote.Common.{
  ℕ, ◌+◌, ◌*◌, ◌≤◌, ◌≡◌, refl, sym, ap, ◌∙◌, none, some, List, [], ◌∷◌, ◌++◌, arith, length, subst,
}
use somenote.Libc.Int.{pos}
use somenote.Libc.File.{overwrite}
use somenote.Libc.Text.{text_self}
use somenote.Libc.Decimal.{padded}
use somenote.Db.State.{ptr_sz, ptr_max, newline, Db, seek_end}
use somenote.Db.Index.Entry.{Entry, IsEntry, EntryAt-overwrite}
use somenote.Db.Index.Pointer.{with_idx, writeptr-ok}
use somenote.Db.Index.Write.{writeidx_as, after_entry}
use somenote.Db.Data.RoundTrip.{writedat_as, dat_locks}
use somenote.Db.Search.Chain.{Links, first, link_of, has_key}
use somenote.Db.Table.{Table, slot_of, IsTable, Holds, Owned, Fresh, nobody, bucket}
use somenote.Db.Table.Put.{put_self}
use somenote.Db.Table.Push.{pushed, IsTable-pushed}
use somenote.Db.Table.Grow.{grown, IsTable-grown}
use somenote.Db.Table.Search.{bucket-lt}
use somenote.Db.Table.Lookup.{offset_of-content}
use somenote.Db.Update.{append_record}
use somenote.Db.Update.Inserts.{
  Fits, record_for, record_for-IsEntry, Inserts, FreshKey-of_none, lookup-pushed, lookup-pushed_ne,
}

-- The end of a file is no slot.
Fresh-end :
    (f dat : List ℕ) (t : Table) (v : IsTable f dat t) (c : ℕ) (xs : Links)
    → Owned t c xs
    → Fresh (length f) xs
Fresh-end f dat t v c [] w = tt
Fresh-end f dat t v c ((off, e) ∷ xs) w = (
  λ same.
      absurd
        (omega (arith, same, (v.in_idx off (slot_of e) w.0).3, (v.in_idx off (slot_of e) w.0).2)),
  Fresh-end f dat t v c xs w.3,
)

module _ (s : Db) (t : Table) (v : Holds s t) (key text' : List ℕ)
    (place : s.chainoff ≡ bucket key * ptr_sz)
    (missing : link_of (has_key key) (t.chain (bucket key)) ≡ none)
    (fits : Fits (length s.dat.bytes) key text') (room : length s.idx.bytes ≤ ptr_max) where
  abbrev head : ℕ
  head = first (t.chain (bucket key))

  abbrev pub e : Entry
  e = record_for key text' head (length s.dat.bytes)

  head_max : head ≤ ptr_max
  head_max = (v.table.heads (bucket key) (bucket-lt key)).0

  valid : IsEntry e
  valid = record_for-IsEntry key text' head (length s.dat.bytes) fits head_max

  abbrev s₁ : Db
  s₁ = record s {
    dat = record {
      bytes = overwrite s.dat.bytes (length s.dat.bytes) (text' ++ newline ∷ []);
      offset = length s.dat.bytes + length (text' ++ newline ∷ []);
    };
    datoff = length s.dat.bytes;
    datlen = length text' + 1;
    locks = dat_locks seek_end s;
  }

  abbrev s₂ : Db
  s₂ = after_entry e seek_end s₁

  abbrev idx_now : ℕ → List ℕ
  idx_now at = overwrite s₂.idx.bytes at (padded ptr_sz (length s.idx.bytes))

  abbrev pub t₁ : Table
  t₁ = grown (length s.idx.bytes) e text' t

  grown-IsTable : IsTable s₂.idx.bytes s₁.dat.bytes t₁
  grown-IsTable =
      IsTable-grown s.idx.bytes s.dat.bytes t v.table e text' valid room refl refl fits.text_null

  pub pushed-IsTable :
      IsTable (idx_now s.chainoff) s₁.dat.bytes (pushed (bucket key) (length s.idx.bytes) e t₁)
  pushed-IsTable =
      subst
        (λ at. IsTable (idx_now at) s₁.dat.bytes (pushed (bucket key) (length s.idx.bytes) e t₁))
        (sym place)
        (IsTable-pushed s₂.idx.bytes s₁.dat.bytes t₁ grown-IsTable (length s.idx.bytes) e
          (put_self (length s.idx.bytes) (some (slot_of e)) t.slot)
          (put_self (length s.idx.bytes) nobody t.owner) (bucket key) (bucket-lt key)
          (EntryAt-overwrite s.idx.bytes (length s.idx.bytes) e valid) refl
          (λ k h. FreshKey-of_none key (t.chain (bucket key)) fits.key_null missing))

  pub append_record_lem : Inserts (append_record key text' (pos head) s) t key text'
  unfolding append_record
  append_record_lem = record {
    after = with_idx (idx_now s.chainoff) (s.chainoff + ptr_sz) s₂;
    table = pushed (bucket key) (length s.idx.bytes) e t₁;
    returns = rw (
      writedat_as text' text' (length text' + 1) seek_end s (text_self text' fits.text_null) refl,
      writeidx_as key key head seek_end s₁ (text_self key fits.key_null) valid,
      writeptr-ok s.chainoff (length s.idx.bytes) s₂ room,
    );
    holds = record { hashoff = v.hashoff; nhash = v.nhash; table = pushed-IsTable };
    there = λ k h.
        lookup-pushed t₁ key (length s.idx.bytes) e fits.key_null refl k h
        ∙ ap some (put_self (length s.idx.bytes) text' t.content);
    kept = λ k h.
        lookup-pushed_ne t₁ key (length s.idx.bytes) e fits.key_null refl k h
        ∙ offset_of-content (has_key k) (t.chain (bucket k)) (length s.idx.bytes) text' t.content (
            Fresh-end s.idx.bytes s.dat.bytes t v.table (bucket k) (t.chain (bucket k))
              (v.table.owned (bucket k) (bucket-lt k)));
  }
