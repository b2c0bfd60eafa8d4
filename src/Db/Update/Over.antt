-- ===== src/Db/Update/Over.antt =====
-- Data of the same length written over the data of a record.
use mathlib.Core.Option
use somenote.Common.{
  ℕ, ◌+◌, ◌≡◌, ◌≢◌, refl, sym, ap, ◌∙◌, some, some-injective, Bool, true, false, Bool-cases, List,
  [], ◌∷◌, ◌++◌, inl, inr, length, subst,
}
use somenote.Libc.File.{overwrite}
use somenote.Libc.Text.{text, NoNull, text_self, same_text_sound}
use somenote.Db.State.{newline, Db, seek_set}
use somenote.Db.Index.Entry.{Entry}
use somenote.Db.Data.RoundTrip.{writedat_as}
use somenote.Db.Search.Chain.{Links, link_of, has_key}
use somenote.Db.Search.Found.{at_link}
use somenote.Db.Table.{Table, slot_of, Holds, Owned, Fresh, bucket, lookup, offset_of}
use somenote.Db.Table.Unlink.{Fresh-of_owner, link_of-slot}
use somenote.Db.Table.Put.{put, put_self, put_ne, eq_or_ne}
use somenote.Db.Table.Removal.{link_of-ne}
use somenote.Db.Table.Refill.{refilled, IsTable-refilled}
use somenote.Db.Table.Search.{bucket-lt}
use somenote.Db.Table.Lookup.{offset_of_link, offset_of-content, has_key-ne, lookup-text}
use somenote.Db.Update.{store_over}
use somenote.Db.Update.Inserts.{Inserts}

-- New data in the slot that one test finds is not seen by a test that excludes the first.
offset_of-content_ne :
    (p q : Entry → Bool) (t : Table) (c : ℕ) (xs : Links) (o : ℕ) (d : Entry) (line : List ℕ)
    → Owned t c xs
    → link_of q xs ≡ some (o, d)
    → ((e : Entry) → q e ≡ true → p e ≡ false)
    → Option.map (put o line t.content) (offset_of p xs) ≡ Option.map t.content (offset_of p xs)
offset_of-content_ne p q t c [] o d line w l h = refl
offset_of-content_ne p q t c ((off, e) ∷ xs) o d line w l h = elim (Bool-cases (q e)) [
  | inl it ↦
      let l' : some (off, e) ≡ some (o, d) = rw it at l in
      let same : off ≡ o = ap (λ (r : ℕ × Entry). r.0) (some-injective (off, e) (o, d) l') in
      rw (h e it) (offset_of-content p xs o line t.content (subst (λ a. Fresh a xs) same w.2))
  | inr not_it ↦
      let l' : link_of q xs ≡ some (o, d) = rw not_it at l in
      elim (Bool-cases (p e)) [
        | inl found ↦ rw found (
            ap some
              (put_ne o line t.content off (λ same. link_of-ne q off xs o d w.2 l' (sym same))))
        | inr other ↦ rw other (offset_of-content_ne p q t c xs o d line w.3 l' h)
      ]
]

module _ (s : Db) (t : Table) (v : Holds s t) (key text' : List ℕ) (o : ℕ) (d : Entry)
    (found : link_of (has_key key) (t.chain (bucket key)) ≡ some (o, d))
    (fits : d.datlen ≡ length text' + 1) (clean : NoNull text') where
  abbrev t' : Table
  t' = refilled o text' t

  the_slot : (t.slot o ≡ some (slot_of d)) × (t.owner o ≡ bucket key) × (has_key key d ≡ true)
  the_slot =
      let r =
        link_of-slot s.idx.bytes s.dat.bytes t v.table (has_key key) (bucket key)
          (t.chain (bucket key)) o d found (v.table.linked (bucket key) (bucket-lt key))
          (v.table.owned (bucket key) (bucket-lt key)) in
      (r.0, r.1, r.4)

  there : (k : List ℕ) → text k ≡ text key → lookup t' k ≡ some text'
  there k h =
      lookup-text t' k key h
      ∙ ap (Option.map t'.content) (offset_of_link (has_key key) (t.chain (bucket key)) o d found)
      ∙ ap some (put_self o text' t.content)

  kept : (k : List ℕ) → text k ≢ text key → lookup t' k ≡ lookup t k
  kept k h = elim (eq_or_ne (bucket k) (bucket key)) [
    | inl same ↦
        ap (λ b. Option.map t'.content (offset_of (has_key k) (t.chain b))) same
        ∙ offset_of-content_ne (has_key k) (has_key key) t (bucket key) (t.chain (bucket key)) o d
            text' (v.table.owned (bucket key) (bucket-lt key)) found
            (λ e it. has_key-ne k e (λ q. h (sym q ∙ same_text_sound e.key (text key) it)))
        ∙ ap (λ b. Option.map t.content (offset_of (has_key k) (t.chain b))) (sym same)
    | inr other ↦ offset_of-content (has_key k) (t.chain (bucket k)) o text' t.content (
        Fresh-of_owner t (bucket k) o (t.chain (bucket k)) (v.table.owned (bucket k) (bucket-lt k))
          (λ same. other (sym same ∙ the_slot.1)))
  ]

  abbrev after_over : Db → Db
  after_over db = record db {
    dat = record {
      bytes = overwrite db.dat.bytes db.datoff (text' ++ newline ∷ []);
      offset = db.datoff + length (text' ++ newline ∷ []);
    };
    datlen = length text' + 1;
    counts = record db.counts { stor4 = db.counts.stor4 + 1 };
  }

  pub store_over_lem :
      (w : Db) → w ≡ at_link s w.ptroff (o, d) → Inserts (store_over text' w) t key text'
  unfolding store_over
  store_over_lem w h = record {
    after = after_over w;
    table = t';
    returns = rw (
        writedat_as text' text' (length text' + 1) (seek_set w.datoff) w (text_self text' clean)
          refl);
    holds =
        subst (λ (r : Db). Holds (after_over r) t') (sym h)
          (record {
            hashoff = v.hashoff;
            nhash = v.nhash;
            table =
                IsTable-refilled s.idx.bytes s.dat.bytes t v.table o (slot_of d) text' the_slot.0
                  fits clean;
          });
    there = there;
    kept = kept;
  }
