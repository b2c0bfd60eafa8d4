-- ===== src/Db/Table/Lookup.antt =====
-- How the dictionary of a table changes with the table.
use mathlib.Core.Option
use somenote.Common.{
  ℕ, suc, ◌%◌, ◌≡◌, ◌≢◌, refl, sym, ap, ◌∙◌, none, some, some-injective, Bool, false, Bool-cases,
  inl, inr, List, [], ◌∷◌, subst, if◌then◌else◌,
}
use somenote.Libc.Text.{text, same_text, same_text_sound}
use somenote.Db.Index.Entry.{Entry}
use somenote.Db.Search.Chain.{Links, link_of, has_key}
use somenote.Db.Table.{Table, Fresh, FreshKey, UniqueKeys, offset_of, lookup}
use somenote.Db.Search.{hash, hash_from}
use somenote.Db.Table.Unlink.{unlink}
use somenote.Db.Table.Put.{put, put_ne}

pub offset_of_link :
    (p : Entry → Bool) (xs : Links) (o : ℕ) (d : Entry)
    → link_of p xs ≡ some (o, d)
    → offset_of p xs ≡ some o
offset_of_link p [] o d h = cc
offset_of_link p ((off, e) ∷ xs) o d h = elim (Bool-cases (p e)) [
  | inl found ↦
      let h' : some (off, e) ≡ some (o, d) = rw found at h in
      rw found (ap (λ (l : ℕ × Entry). some l.0) (some-injective (off, e) (o, d) h'))
  | inr other ↦
      let h' : link_of p xs ≡ some (o, d) = rw other at h in rw other (offset_of_link p xs o d h')
]

pub offset_of-none : (p : Entry → Bool) (xs : Links) → link_of p xs ≡ none → offset_of p xs ≡ none
offset_of-none p [] h = refl
offset_of-none p ((off, e) ∷ xs) h = elim (Bool-cases (p e)) [
  | inl found ↦ let h' : some (off, e) ≡ none = rw found at h in absurd (some_ne_none (off, e) h')
  | inr other ↦ let h' : link_of p xs ≡ none = rw other at h in rw other (offset_of-none p xs h')
]
  where
    some_ne_none : (l : ℕ × Entry) → some l ≡ none → ⊥
    some_ne_none l q = cc

-- A slot that is not on the chain is not found.
pub offset_of-content :
    (p : Entry → Bool) (xs : Links) (o : ℕ) (line : List ℕ) (content : ℕ → List ℕ)
    → Fresh o xs
    → Option.map (put o line content) (offset_of p xs) ≡ Option.map content (offset_of p xs)
offset_of-content p [] o line content h = refl
offset_of-content p ((off, e) ∷ xs) o line content h = elim (Bool-cases (p e)) [
  | inl found ↦ rw found (ap some (put_ne o line content off h.0))
  | inr other ↦ rw other (offset_of-content p xs o line content h.1)
]

pub has_key-ne : (key : List ℕ) (e : Entry) → e.key ≢ text key → has_key key e ≡ false
has_key-ne key e h = elim (Bool-cases (has_key key e)) [
  | inl same ↦ absurd (h (same_text_sound e.key (text key) same))
  | inr other ↦ other
]

offset_of-FreshKey :
    (key : List ℕ) (xs : Links) → FreshKey (text key) xs → offset_of (has_key key) xs ≡ none
offset_of-FreshKey key [] h = refl
offset_of-FreshKey key ((off, e) ∷ xs) h = rw (has_key-ne key e h.0) (offset_of-FreshKey key xs h.1)

-- Of unique keys none is left when its record is taken off.
pub offset_of-unlink :
    (key : List ℕ) (xs : Links)
    → UniqueKeys xs
    → offset_of (has_key key) (unlink (has_key key) xs) ≡ none
offset_of-unlink key [] h = refl
offset_of-unlink key ((off, e) ∷ xs) h = elim (Bool-cases (has_key key e)) [
  | inl found ↦
      let same : e.key ≡ text key = same_text_sound e.key (text key) found in
      rw found (offset_of-FreshKey key xs (subst (λ s. FreshKey s xs) same h.0))
  | inr other ↦ rw (other, other) (offset_of-unlink key xs h.1)
]

-- Other keys are found where they were.
pub offset_of-unlink_ne :
    (key other : List ℕ) (xs : Links)
    → text other ≢ text key
    → offset_of (has_key other) (unlink (has_key key) xs) ≡ offset_of (has_key other) xs
offset_of-unlink_ne key other [] ne = refl
offset_of-unlink_ne key other ((off, e) ∷ xs) ne = elim (Bool-cases (has_key key e)) [
  | inl found ↦
      let same : e.key ≡ text key = same_text_sound e.key (text key) found in
      rw (found, has_key-ne other e (λ q. ne (sym q ∙ same)))
  | inr not_it ↦
      rw not_it
        (ap (λ r. if has_key other e then some off else r) (offset_of-unlink_ne key other xs ne))
]

-- Keys of one text have one entry.
pub lookup-text : (t : Table) (j k : List ℕ) → text j ≡ text k → lookup t j ≡ lookup t k
unfolding hash
lookup-text t j k h =
    ap
      (λ s.
        Option.map t.content
          (offset_of (λ e. same_text e.key s) (t.chain (suc (hash_from 0 1 s % 137)))))
      h
