-- ===== src/Web/Sound/Kinds.antt =====
-- The changes that c_code/unp/web/web.c makes of a file: a connection begun, made or there, and
-- the end of its file.
use somenote.Common.{
  ℕ, ◌+◌, ◌-◌, ◌≤◌, ◌<◌, ◌≡◌, ◌≢◌, refl, sym, ap, ◌∙◌, subst, true, false, ◌&&◌, ◌==◌, ltb, List,
  some, set, get_elem?, arith,
}
use somenote.Libc.Int.{ℤ, pos, negsuc}
use somenote.Web.State.{
  f_none, f_connecting, f_reading, f_done, File, Web, fd_set, fd_clr, raise, above, fd_setsize,
}
use somenote.Web.Files.{bit, is_open, unconnected, opening, unread, holds, total-at}
use somenote.Web.Sound.{View, IsSound, IsUsed}
use somenote.Web.Sound.Moves.{Move}

above-raise : (g fd : ℕ) (m : ℤ) → above g m ≡ false → above g (raise fd m) ≡ false
unfolding above raise
above-raise g fd (pos m) h = ground arith
above-raise g fd (negsuc m) h = absurd cc

above-raise_self : (fd : ℕ) (m : ℤ) → above fd (raise fd m) ≡ false
unfolding above raise
above-raise_self fd (pos m) = ground arith
above-raise_self fd (negsuc m) = ground arith

bit-true : (n g : ℕ) → 0 < bit (n == g) → n ≡ g
bit-true n g h = ground arith

bit-fresh : (n g a : ℕ) → n ≢ g → bit (n == g) ≤ a
bit-fresh n g a h = ground arith

some_held : (n : ℕ) → ltb 0 n ≡ true → 0 < n
some_held n h = ground arith

module _ {W : Type 0} (v : View W) where
  -- The file of a connection uses its descriptor.
  pub used_at :
      (s : Web W) (i : ℕ) (x : File)
      → IsSound v s
      → get_elem? s.files i ≡ some x
      → is_open x.f_flags ≡ true
      → IsUsed v s x.f_fd
  used_at s i x h at k =
      h.used x.f_fd (omega (arith, total-at (holds x.f_fd) s.files i x at, itself))
    where
      same : (n : ℕ) → (n == n) ≡ true
      same n = ground arith

      itself : holds x.f_fd x ≡ 1
      itself = rw (k, same x.f_fd) refl

  module _ (s : Web W) (w : W)
      (keep : (g : ℕ) → v.opened g s.world ≡ true → v.opened g w ≡ true) where
    still_used :
        (g fd : ℕ)
        → IsUsed v s g
        → (above g (raise fd s.maxfd) ≡ false) × (v.opened g w ≡ true) × (g < fd_setsize)
    still_used g fd u = (above-raise g fd s.maxfd u.0, keep g u.1, u.2)

    -- A connection that was begun is there: its command has been written.
    pub connecting-reading :
        (i : ℕ) (x : File) (o : List ℕ) (e : List (List ℕ))
        → IsSound v s
        → get_elem? s.files i ≡ some x
        → x.f_flags ≡ f_connecting
        → v.room s.world ≤ v.room w
        → Move v s
            (record s {
              world = w;
              output = o;
              errors = e;
              files = set s.files i (record x { f_flags = f_reading });
              rset = fd_set x.f_fd s.rset;
              wset = fd_clr x.f_fd s.wset;
              maxfd = raise x.f_fd s.maxfd;
            })
            i
            x
            (record x { f_flags = f_reading })
    unfolding fd_set fd_clr
    connecting-reading i x o e h at k more = record {
      found = at;
      name = refl;
      files = refl;
      to_connect = rw k refl;
      connections = rw k refl;
      to_read = rw k refl;
      readers = λ g. rw k (ground arith);
      writers = λ g. rw k (ground arith);
      room = rw k (omega arith);
      alone = λ g r. rw k (omega arith);
      taken = λ g r.
          let p : x.f_fd ≡ g = bit-true x.f_fd g r in
          still_used g x.f_fd (subst (IsUsed v s) p (used_at s i x h at (ap is_open k)));
      kept = λ g r z u. still_used g x.f_fd u;
    }

    -- A connection that is begun, or made at once, on a new descriptor.
    module _ (i : ℕ) (x : File) (fd : ℕ) (o : List ℕ) (h : IsSound v s)
        (at : get_elem? s.files i ≡ some x) (k : x.f_flags ≡ f_none)
        (shut : v.opened fd s.world ≡ false) (open_now : v.opened fd w ≡ true)
        (small : fd < fd_setsize) (more : v.room s.world ≤ v.room w + 1) where
      one_left : (s.nlefttoconn - 1) + 1 ≡ s.nlefttoconn + 0
      one_left =
          let e : unconnected x ≡ 1 = rw k refl in
          omega (arith, h.to_connect, total-at unconnected s.files i x at, e)

      fresh : (g a : ℕ) → s.rset g ≡ true → bit (fd == g) ≤ a
      fresh g a r =
          bit-fresh fd g a (λ p. not_open g (h.used g (some_held _ (sym (h.readers g) ∙ r))).1 p)
        where
          not_open : (g : ℕ) → v.opened g s.world ≡ true → fd ≡ g → ⊥
          not_open g a p =
              let b : v.opened g s.world ≡ false = subst (λ n. v.opened n s.world ≡ false) p shut in
              cc

      used_now :
          (g : ℕ)
          → 0 < bit (fd == g)
          → (above g (raise fd s.maxfd) ≡ false) × (v.opened g w ≡ true) × (g < fd_setsize)
      used_now g r =
          let p : fd ≡ g = bit-true fd g r in
          subst
            (λ n. (above n (raise fd s.maxfd) ≡ false) × (v.opened n w ≡ true) × (n < fd_setsize)) p
            (above-raise_self fd s.maxfd, open_now, small)

      pub none-connecting :
          Move v s
            (record s {
              world = w;
              output = o;
              files = set s.files i (record x { f_fd = fd; f_flags = f_connecting });
              rset = fd_set fd s.rset;
              wset = fd_set fd s.wset;
              maxfd = raise fd s.maxfd;
              nconn = s.nconn + 1;
              nlefttoconn = s.nlefttoconn - 1;
            })
            i
            x
            (record x { f_fd = fd; f_flags = f_connecting })
      unfolding fd_set
      none-connecting = record {
        found = at;
        name = refl;
        files = refl;
        to_connect = rw k one_left;
        connections = rw k (omega arith);
        to_read = rw k refl;
        readers = λ g. rw k (ground arith);
        writers = λ g. rw k (ground arith);
        room = rw k (omega arith);
        alone = λ g r. fresh g (holds g x) r;
        taken = λ g r. used_now g r;
        kept = λ g r z u. still_used g fd u;
      }

      pub none-reading :
          Move v s
            (record s {
              world = w;
              output = o;
              files = set s.files i (record x { f_fd = fd; f_flags = f_reading });
              rset = fd_set fd s.rset;
              maxfd = raise fd s.maxfd;
              nconn = s.nconn + 1;
              nlefttoconn = s.nlefttoconn - 1;
            })
            i
            x
            (record x { f_fd = fd; f_flags = f_reading })
      unfolding fd_set
      none-reading = record {
        found = at;
        name = refl;
        files = refl;
        to_connect = rw k one_left;
        connections = rw k (omega arith);
        to_read = rw k refl;
        readers = λ g. rw k (ground arith);
        writers = λ g. rw k (ground arith);
        room = rw k (omega arith);
        alone = λ g r. fresh g (holds g x) r;
        taken = λ g r. used_now g r;
        kept = λ g r z u. still_used g fd u;
      }

  -- The end of a file: its descriptor is closed.
  pub reading-done :
      (s : Web W) (w : W) (i : ℕ) (x : File) (o : List ℕ)
      → IsSound v s
      → get_elem? s.files i ≡ some x
      → x.f_flags ≡ f_reading
      → ((g : ℕ) → (g == x.f_fd) ≡ false → v.opened g s.world ≡ true → v.opened g w ≡ true)
      → v.room s.world ≤ v.room w
      → Move v s
          (record s {
            world = w;
            output = o;
            files = set s.files i (record x { f_flags = f_done });
            rset = fd_clr x.f_fd s.rset;
            nconn = s.nconn - 1;
            nlefttoread = s.nlefttoread - 1;
          })
          i
          x
          (record x { f_flags = f_done })
  unfolding fd_clr
  reading-done s w i x o h at k keep more =
      let e : opening x ≡ 1 = rw k refl in
      let e' : unread x ≡ 1 = rw k refl in
      record {
        found = at;
        name = refl;
        files = refl;
        to_connect = rw k refl;
        connections = omega (arith, e, h.connections, total-at opening s.files i x at);
        to_read = omega (arith, e', h.to_read, total-at unread s.files i x at);
        readers = λ g. rw k (ground arith);
        writers = λ g. rw k (ground arith);
        room = rw k (omega arith);
        alone = λ g r. omega arith;
        taken = λ g r. absurd (omega arith);
        kept = λ g r z u. (u.0, keep g (other g z) u.1, u.2);
      }
    where
      apart : (n g : ℕ) → bit (n == g) ≡ 0 → (g == n) ≡ false
      apart n g h = ground arith

      other : (g : ℕ) → holds g x ≡ 0 → (g == x.f_fd) ≡ false
      other g z = apart x.f_fd g (sym (ap (λ f. bit (is_open f && x.f_fd == g)) k) ∙ z)
