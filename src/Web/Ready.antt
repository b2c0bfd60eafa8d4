-- ===== src/Web/Ready.antt =====
-- Why a call of select in c_code/unp/web/web.c brings a file nearer to its end.
use somenote.Common.{
  ℕ, suc, ◌+◌, ◌≤◌, ◌<◌, ◌≡◌, ◌⊎◌, refl, sym, ap, ◌∙◌, Bool, true, false, ◌&&◌, ◌||◌, ◌==◌, ltb,
  List, some, get_elem?, arith,
}
use somenote.Libc.Int.{ℤ, pos, negsuc}
use somenote.Web.State.{
  Flags, f_none, f_connecting, f_reading, f_done, File, FdSet, Web, above, count_of, is_none,
}
use somenote.Web.Files.{
  bit, is_open, is_connecting, is_left, unconnected, opening, unread, holds, dials, total,
  total-add, total-some, total-at,
}
use somenote.Web.Sound.{View, IsSound}
use somenote.Web.Sound.Kinds.{used_at}
use somenote.Web.Sound.Visits.{is_ready}

left_or_open : (f : Flags) → bit (is_left f) ≡ bit (is_none f) + bit (is_open f)
left_or_open f_none = refl
left_or_open f_connecting = refl
left_or_open f_reading = refl
left_or_open f_done = refl

in_range : (fd : ℕ) (m : ℤ) → above fd m ≡ false → fd < count_of m
unfolding above count_of
in_range fd (pos m) h = ground arith
in_range fd (negsuc m) h = absurd cc

both : (a b : Bool) → 0 < bit (a && b) → (a ≡ true) × (b ≡ true)
both true true h = (refl, refl)
both true false h = absurd (omega arith)
both false b h = absurd (omega arith)

both_true : (a b : Bool) → (a && b) ≡ true → (a ≡ true) × (b ≡ true)
both_true true true h = (refl, refl)
both_true true false h = absurd cc
both_true false b h = absurd cc

same_fd : (n g : ℕ) → (n == g) ≡ true → n ≡ g
same_fd n g h = ground arith

held : (n : ℕ) → ltb 0 n ≡ true → 0 < n
held n h = ground arith

or_true : (a b : Bool) → a ≡ true → (a || b) ≡ true
or_true true b h = refl
or_true false b h = absurd cc

true_or : (a b : Bool) → b ≡ true → (a || b) ≡ true
true_or true b h = refl
true_or false b h = h

ready_reader :
    (rs ws : FdSet) (x : File) (f : Flags)
    → is_open f ≡ true
    → rs x.f_fd ≡ true
    → is_ready rs ws x f ≡ true
ready_reader rs ws x f_none o h = absurd cc
ready_reader rs ws x f_connecting o h = or_true (rs x.f_fd) (ws x.f_fd) h
ready_reader rs ws x f_reading o h = h
ready_reader rs ws x f_done o h = absurd cc

ready_writer :
    (rs ws : FdSet) (x : File) (f : Flags)
    → is_connecting f ≡ true
    → ws x.f_fd ≡ true
    → is_ready rs ws x f ≡ true
ready_writer rs ws x f_none o h = absurd cc
ready_writer rs ws x f_connecting o h = true_or (rs x.f_fd) (ws x.f_fd) h
ready_writer rs ws x f_reading o h = absurd cc
ready_writer rs ws x f_done o h = absurd cc

-- A file that has something to do.
abbrev pub HasReady : List File → FdSet → FdSet → Type 0
HasReady xs rs ws =
    (j : ℕ) × (x : File) × (get_elem? xs j ≡ some x) × (is_ready rs ws x x.f_flags ≡ true)

module _ {W : Type 0} (v : View W) (s : Web W) (h : IsSound v s) where
  -- A descriptor that is ready belongs to a file.
  pub ready_file :
      (rs ws : FdSet) (g : ℕ)
      → ((s.rset g && rs g) || (s.wset g && ws g)) ≡ true
      → HasReady s.files rs ws
  ready_file rs ws g r = by_reader (s.rset g && rs g) refl
    where
      reader : (s.rset g && rs g) ≡ true → HasReady s.files rs ws
      reader e =
          let (a, b) = both_true (s.rset g) (rs g) e in
          let (j, x, at, c) = total-some (holds g) s.files (held _ (sym (h.readers g) ∙ a)) in
          let (o, q) = both (is_open x.f_flags) (x.f_fd == g) c in
          (j, x, at, ready_reader rs ws x x.f_flags o (ap rs (same_fd x.f_fd g q) ∙ b))

      writer : (s.wset g && ws g) ≡ true → HasReady s.files rs ws
      writer e =
          let (a, b) = both_true (s.wset g) (ws g) e in
          let (j, x, at, c) = total-some (dials g) s.files (held _ (sym (h.writers g) ∙ a)) in
          let (o, q) = both (is_connecting x.f_flags) (x.f_fd == g) c in
          (j, x, at, ready_writer rs ws x x.f_flags o (ap ws (same_fd x.f_fd g q) ∙ b))

      by_reader : (b : Bool) → (s.rset g && rs g) ≡ b → HasReady s.files rs ws
      by_reader true e = reader e
      by_reader false e = writer (sym (ap (λ b. b || (s.wset g && ws g)) e) ∙ r)

  -- While a file is not read, and the limit is reached or each file has had a connection, one is
  -- open.
  pub some_open :
      (m : ℕ)
      → 0 < s.nlefttoread
      → (suc m ≤ s.nconn) ⊎ (s.nlefttoconn ≡ 0)
      → (fd : ℕ) × (fd < count_of s.maxfd) × (s.rset fd ≡ true)
  some_open m p e =
      let sum : total unread s.files ≡ total unconnected s.files + total opening s.files =
        total-add unconnected opening unread s.files (λ x. left_or_open x.f_flags) in
      let (j, x, at, o) =
        total-some opening s.files
          (omega (arith, sum, p, e, h.to_connect, h.connections, h.to_read)) in
      let k : is_open x.f_flags ≡ true = from_bit (is_open x.f_flags) o in
      (
        x.f_fd,
        in_range x.f_fd s.maxfd (used_at v s j x h at k).0,
        h.readers x.f_fd
            ∙ positive _ (omega (arith, total-at (holds x.f_fd) s.files j x at, itself x k)),
      )
    where
      from_bit : (b : Bool) → 0 < bit b → b ≡ true
      from_bit true h = refl
      from_bit false h = absurd (omega arith)

      positive : (n : ℕ) → 0 < n → ltb 0 n ≡ true
      positive n h = ground arith

      same : (n : ℕ) → (n == n) ≡ true
      same n = ground arith

      itself : (x : File) → is_open x.f_flags ≡ true → holds x.f_fd x ≡ 1
      itself x k = rw (k, same x.f_fd) refl
