-- ===== src/Db/Table.antt =====
-- What the two files of a database hold: 138 chains of records, the free list the first of them,
-- and for each record its data. The pointer to chain `c` stands at offset 7 c.
pub mod Bytes
pub mod Unlink
pub mod Put
pub mod Removal
pub mod Removed
pub mod Push
pub mod Refill
pub mod Grow
pub mod Search
pub mod Lookup
pub mod Free
pub mod Dictionary
use somenote.Common.{
  ℕ, suc, ◌+◌, ◌*◌, ◌≤◌, ◌<◌, ◌≡◌, ◌≢◌, Bool, Option, none, some, List, [], ◌∷◌, length, ◌==◌,
  if◌then◌else◌,
}
use mathlib.Core.Option
use somenote.Libc.Text.{NoNull}
use somenote.Db.State.{ptr_sz, ptr_max, nhash_def, Db}
use somenote.Db.Index.Entry.{Entry, encode, EntryAt}
use somenote.Db.Index.Pointer.{PtrAt}
use somenote.Db.Data.RoundTrip.{DataAt}
use somenote.Db.Search.{hash}
use somenote.Db.Search.Chain.{Links, first, Chain, has_key}

-- A place for a record, once and for all: its length in the index file, and its place in the data
-- file.
pub record Slot : Type 0 where
  pub size : ℕ
  pub datoff : ℕ
  pub datlen : ℕ

-- The chains, the slots by their offset, the chain that a slot is on, and the data in it.
pub record Table : Type 0 where
  pub chain : ℕ → Links
  pub slot : ℕ → Option Slot
  pub owner : ℕ → ℕ
  pub content : ℕ → List ℕ

-- How many chains there are, and where the first record stands.
abbrev pub chains : ℕ
chains = nhash_def + 1

abbrev pub first_record : ℕ
first_record = chains * ptr_sz + 1

-- The owner of a slot that is on no chain.
abbrev pub nobody : ℕ
nobody = chains

-- The chain on which a key is looked for.
abbrev pub bucket : List ℕ → ℕ
bucket key = suc (hash key)

abbrev pub slot_of : Entry → Slot
slot_of e = record { size = length (encode e); datoff = e.datoff; datlen = e.datlen }

-- The offset does not occur on a chain.
abbrev pub Fresh : ℕ → Links → Type 0
Fresh off [] = Unit {0}
Fresh off ((o, e) ∷ xs) = (o ≢ off) × Fresh off xs

-- No record of a chain has the key.
abbrev pub FreshKey : List ℕ → Links → Type 0
FreshKey key [] = Unit {0}
FreshKey key ((o, e) ∷ xs) = (e.key ≢ key) × FreshKey key xs

-- The records of a chain fill slots that are on that chain, each once.
abbrev pub Owned : Table → ℕ → Links → Type 0
Owned t c [] = Unit {0}
Owned t c ((off, e) ∷ xs) =
    (t.slot off ≡ some (slot_of e)) × (t.owner off ≡ c) × Fresh off xs × Owned t c xs

abbrev pub UniqueKeys : Links → Type 0
UniqueKeys [] = Unit {0}
UniqueKeys ((off, e) ∷ xs) = FreshKey e.key xs × UniqueKeys xs

-- The bytes of the index file and of the data file hold a table.
pub record IsTable (idx dat : List ℕ) (t : Table) : Type 0 where
  pub heads : (c : ℕ) → c < chains → PtrAt idx (c * ptr_sz) (first (t.chain c))
  pub linked : (c : ℕ) → c < chains → Chain idx (t.chain c)
  pub owned : (c : ℕ) → c < chains → Owned t c (t.chain c)
  pub keys : (c : ℕ) → suc c < chains → UniqueKeys (t.chain (suc c))
  pub header : first_record ≤ length idx
  pub in_idx :
      (a : ℕ) (s : Slot)
      → t.slot a ≡ some s
      → (first_record ≤ a)
        × (a ≤ ptr_max)
        × (7 ≤ s.size)
        × (a + s.size ≤ length idx)
        × (s.datoff + s.datlen ≤ length dat)
  pub spaced :
      (a b : ℕ) (s u : Slot)
      → t.slot a ≡ some s
      → t.slot b ≡ some u
      → a < b
      → (a + s.size ≤ b) × (s.datoff + s.datlen ≤ u.datoff)
  pub data_at :
      (a : ℕ) (s : Slot)
      → t.slot a ≡ some s
      → (s.datlen ≡ length (t.content a) + 1)
        × NoNull (t.content a)
        × DataAt dat s.datoff (t.content a)

-- A handle of a database whose files hold a table.
pub record Holds (db : Db) (t : Table) : Type 0 where
  pub hashoff : db.hashoff ≡ ptr_sz
  pub nhash : db.nhash ≡ nhash_def
  pub table : IsTable db.idx.bytes db.dat.bytes t

-- The place of the first record of a chain that passes a test.
abbrev pub offset_of : (Entry → Bool) → Links → Option ℕ
offset_of p [] = none
offset_of p ((off, e) ∷ xs) = if p e then some off else offset_of p xs

-- The dictionary that a table stands for.
abbrev pub lookup : Table → List ℕ → Option (List ℕ)
lookup t key = Option.map t.content (offset_of (has_key key) (t.chain (bucket key)))
