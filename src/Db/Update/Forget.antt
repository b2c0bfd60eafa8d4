-- ===== src/Db/Update/Forget.antt =====
-- The dictionary of a table from which a key is deleted.
use mathlib.Core.Option
use somenote.Common.{ℕ, ◌<◌, ◌≡◌, ◌≢◌, sym, ap, ◌∙◌, none, some, true, List, ◌∷◌, arith, inl, inr}
use somenote.Libc.Text.{text, same_text}
use somenote.Db.Index.Entry.{Entry, EntryAt}
use somenote.Db.Search.{hash}
use somenote.Db.Search.Chain.{Links, first, link_of, has_key}
use somenote.Db.Table.{Table, slot_of, IsTable, Fresh, nobody, bucket, lookup, offset_of}
use somenote.Db.Table.Unlink.{unlink, Fresh-of_owner, link_of-slot}
use somenote.Db.Table.Put.{put, put_self, put_ne, eq_or_ne}
use somenote.Db.Table.Removal.{removed, Owned-unlink}
use somenote.Db.Table.Search.{bucket-lt}
use somenote.Db.Table.Lookup.{offset_of-content, offset_of-unlink, offset_of-unlink_ne}
use somenote.Db.Update.Blank.{blank, blank_line}
use somenote.Db.Update.Deleted.{deleted}

pub bucket_of_text : (j k : List ℕ) → text j ≡ text k → bucket j ≡ bucket k
unfolding hash
bucket_of_text j k h = rw h

module _ (f dat : List ℕ) (t : Table) (v : IsTable f dat t) (key : List ℕ) (o : ℕ) (d : Entry)
    (found : link_of (has_key key) (t.chain (bucket key)) ≡ some (o, d)) where
  abbrev t' : Table
  t' = deleted (has_key key) (bucket key) o d t

  abbrev old : Links
  old = t.chain (bucket key)

  the_slot :
      (t.slot o ≡ some (slot_of d))
      × (t.owner o ≡ bucket key)
      × (0 < o)
      × EntryAt f o d
      × (has_key key d ≡ true)
  the_slot =
      link_of-slot f dat t v (has_key key) (bucket key) old o d found
        (v.linked (bucket key) (bucket-lt key)) (v.owned (bucket key) (bucket-lt key))

  -- The free list is no bucket.
  bucket_chain :
      (k : List ℕ)
      → t'.chain (bucket k) ≡ put (bucket key) (unlink (has_key key) old) t.chain (bucket k)
  bucket_chain k =
      put_ne 0
        ((o, blank d (first (t.chain 0))) ∷ put (bucket key) (unlink (has_key key) old) t.chain 0)
        (put (bucket key) (unlink (has_key key) old) t.chain) (bucket k) (omega arith)

  same_chain : (k : List ℕ) → bucket k ≡ bucket key → t'.chain (bucket k) ≡ unlink (has_key key) old
  same_chain k h =
      bucket_chain k
      ∙ ap (put (bucket key) (unlink (has_key key) old) t.chain) h
      ∙ put_self (bucket key) (unlink (has_key key) old) t.chain

  other_chain : (k : List ℕ) → bucket k ≢ bucket key → t'.chain (bucket k) ≡ t.chain (bucket k)
  other_chain k h =
      bucket_chain k ∙ put_ne (bucket key) (unlink (has_key key) old) t.chain (bucket k) h

  -- The key has no record any more.
  pub lookup-deleted : (k : List ℕ) → text k ≡ text key → lookup t' k ≡ none
  lookup-deleted k h =
      ap (λ xs. Option.map t'.content (offset_of (has_key k) xs))
        (same_chain k (bucket_of_text k key h))
      ∙ ap
          (λ s.
            Option.map t'.content (offset_of (λ e. same_text e.key s) (unlink (has_key key) old)))
          h
      ∙ ap (Option.map t'.content) (offset_of-unlink key old (v.keys (hash key) (bucket-lt key)))

  Fresh-old : Fresh o (unlink (has_key key) old)
  Fresh-old =
      Fresh-of_owner (removed (has_key key) (bucket key) o t) (bucket key) o
        (unlink (has_key key) old)
        (Owned-unlink f dat t v (has_key key) (bucket key) o d old found
          (v.linked (bucket key) (bucket-lt key)) (v.owned (bucket key) (bucket-lt key)))
        (λ same. absurd (omega (arith, bucket-lt key, same, put_self o nobody t.owner)))

  -- Any other key has what it had.
  pub lookup-deleted_ne : (k : List ℕ) → text k ≢ text key → lookup t' k ≡ lookup t k
  lookup-deleted_ne k h = elim (eq_or_ne (bucket k) (bucket key)) [
    | inl same ↦
        ap (λ xs. Option.map t'.content (offset_of (has_key k) xs)) (same_chain k same)
        ∙ offset_of-content (has_key k) (unlink (has_key key) old) o (blank_line d.datlen) t.content
            Fresh-old
        ∙ ap (Option.map t.content) (offset_of-unlink_ne key k old h)
        ∙ ap (λ b. Option.map t.content (offset_of (has_key k) (t.chain b))) (sym same)
    | inr other ↦
        ap (λ xs. Option.map t'.content (offset_of (has_key k) xs)) (other_chain k other)
        ∙ offset_of-content (has_key k) (t.chain (bucket k)) o (blank_line d.datlen) t.content (
            Fresh-of_owner t (bucket k) o (t.chain (bucket k)) (v.owned (bucket k) (bucket-lt k))
              (λ same. other (sym same ∙ the_slot.1)))
  ]
