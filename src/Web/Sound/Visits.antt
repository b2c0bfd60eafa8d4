-- ===== src/Web/Sound/Visits.antt =====
-- The visit of one file in the loop of `main` of c_code/unp/web/web.c.
use somenote.Common.{
  ℕ, ◌+◌, ◌-◌, ◌≤◌, ◌<◌, ◌≡◌, refl, sym, ap, ◌∙◌, subst, some-injective, Bool, true, false, ◌||◌,
  ◌==◌, ltb, if◌then◌else◌, List, ◌++◌, ◌∷◌, [], take, map, some, set, get_elem?, length, arith,
}
use somenote.Libc.Int.{is_zero}
use somenote.Libc.Text.{codes}
use somenote.Libc.Effect.{ok, pure}
use somenote.Libc.Returns.{Returns, branch-Returns}
use somenote.Web.State.{
  Flags, f_none, f_connecting, f_reading, f_done, File, FdSet, Net, Web, fd_set, fd_clr, raise,
  maxline, fd_setsize,
}
use somenote.Web.Files.{
  is_open, total-at, steps, total, total-set, set_other, map-set, too_long, bit,
}
use somenote.Web.Connect.{get_cmd, line_bytes, wrote, write_get_cmd, set_rset, raise_maxfd}
use somenote.Web.Main.{visit, by_flags, finish_connect, read_some, at_end_of_file}
use somenote.Web.Sound.{View, Keeps, Serves, IsSound, rank, names}
use somenote.Web.Sound.Moves.{Move, Move-IsSound}
use somenote.Web.Sound.Kinds.{used_at, connecting-reading, reading-done}

pub line_bytes-short :
    (t : List ℕ) → bit (ltb maxline (length t)) ≡ 0 → (l : List ℕ) × (line_bytes t ≡ some l)
unfolding line_bytes
line_bytes-short t h = by_length (ltb (length t) maxline) (length t == maxline) refl refl
  where
    not_above :
        (n : ℕ) → bit (ltb maxline n) ≡ 0 → ltb n maxline ≡ false → (n == maxline) ≡ false → ⊥
    not_above n h p q = ground arith

    by_length :
        (a b : Bool)
        → ltb (length t) maxline ≡ a
        → (length t == maxline) ≡ b
        → (l : List ℕ) × (line_bytes t ≡ some l)
    by_length true b p q = (t, rw p refl)
    by_length false true p q = (take (maxline - 1) t ++ 0 ∷ [], rw (p, q) refl)
    by_length false false p q = absurd (not_above (length t) h p q)

module _ {W : Type 0} ⦃net : Net W⦄ where
  pub write_get_cmd_lem :
      (i : ℕ) (x : File) (s : Web W)
      → get_elem? s.files i ≡ some x
      → too_long x ≡ 0
      → x.f_fd < fd_setsize
      → (l : List ℕ) × (o : List ℕ) × (write_get_cmd i s
          ≡ ok tt (record s {
            world = net.writen x.f_fd l s.world;
            output = o;
            files = set s.files i (record x { f_flags = f_reading });
            rset = fd_set x.f_fd s.rset;
            maxfd = raise x.f_fd s.maxfd;
          }))
  unfolding write_get_cmd set_rset raise_maxfd
  write_get_cmd_lem i x s at short small =
      let (l, e) = line_bytes-short (get_cmd x.f_name) short in
      (l, s.output ++ wrote (get_cmd x.f_name) x.f_name, rw (at, e, fits x.f_fd small) refl)
    where
      fits : (n : ℕ) → n < fd_setsize → ltb n fd_setsize ≡ true
      fits n h = ground arith

-- The file has something to do.
abbrev pub is_ready : FdSet → FdSet → File → Flags → Bool
is_ready rs ws x f_none = false
is_ready rs ws x f_connecting = rs x.f_fd || ws x.f_fd
is_ready rs ws x f_reading = rs x.f_fd
is_ready rs ws x f_done = false

module _ {W : Type 0} where
  -- The variables are sound again; no other file has changed, there is no new connection, and a file
  -- that has something to do has come nearer to its end.
  pub record Visited (v : View W) (rs ws : FdSet) (i : ℕ) (s s' : Web W) : Type 0 where
    pub sound : IsSound v s'
    pub names_kept : names s' ≡ names s
    pub no_more : s'.nconn ≤ s.nconn
    pub rank_le : rank v s' ≤ rank v s
    pub others : (j : ℕ) → (i == j) ≡ false → get_elem? s'.files j ≡ get_elem? s.files j
    pub nearer :
        (x : File)
        → get_elem? s.files i ≡ some x
        → is_ready rs ws x x.f_flags ≡ true
        → rank v s' < rank v s

  -- A file that moves on.
  moved :
      (v : View W) (rs ws : FdSet) (i : ℕ) (s s' : Web W) (x y : File)
      → IsSound v s
      → Move v s s' i x y
      → v.pending s'.world ≤ v.pending s.world
      → s'.nconn ≤ s.nconn
      → steps y < steps x
      → Visited v rs ws i s s'
  moved v rs ws i s s' x y h m p c d = record {
    sound = Move-IsSound m h;
    names_kept =
        ap (map (λ z. z.f_name)) m.files ∙ map-set (λ z. z.f_name) s.files i x y m.found m.name;
    no_more = c;
    rank_le = omega (arith, down);
    others = λ j k. ap (λ l. get_elem? l j) m.files ∙ set_other s.files i j y k;
    nearer = λ z at r. omega (arith, down);
  }
    where
      fewer : total steps s'.files + steps x ≡ total steps s.files + steps y
      fewer = ap (λ l. total steps l + steps x) m.files ∙ total-set steps s.files i x y m.found

      down : rank v s' < rank v s
      down = omega (arith, fewer, p, d)

  -- Other calls of the network and of printf do not touch what the variables say.
  pub Keeps-IsSound :
      (v : View W) (s : Web W) (w : W) (o : List ℕ)
      → IsSound v s
      → Keeps v s.world w
      → IsSound v (record s { world = w; output = o })
  Keeps-IsSound v s w o h keep = record {
    to_connect = h.to_connect;
    connections = h.connections;
    to_read = h.to_read;
    readers = h.readers;
    writers = h.writers;
    alone = h.alone;
    used = λ g q. ((h.used g q).0, keep.0 g (h.used g q).1, (h.used g q).2);
    short = h.short;
    enough = omega (arith, h.enough, keep.2);
  }

  -- A round that does not touch the variables.
  untouched :
      (v : View W) (rs ws : FdSet) (i : ℕ) (s : Web W) (w : W) (o : List ℕ)
      → IsSound v s
      → Keeps v s.world w
      → ((x : File)
          → get_elem? s.files i ≡ some x
          → is_ready rs ws x x.f_flags ≡ true
          → v.pending w < v.pending s.world)
      → Visited v rs ws i s (record s { world = w; output = o })
  untouched v rs ws i s w o h keep near = record {
    sound = Keeps-IsSound v s w o h keep;
    names_kept = refl;
    no_more = omega arith;
    rank_le = omega (arith, keep.1);
    others = λ j k. refl;
    nearer = λ x at r. omega (arith, near x at r);
  }

module _ {W : Type 0} ⦃net : Net W⦄ (v : View W) (laws : Serves net v) (rs ws : FdSet) where
  short_at :
      (s : Web W) (i : ℕ) (x : File) → IsSound v s → get_elem? s.files i ≡ some x → too_long x ≡ 0
  short_at s i x h at = omega (arith, total-at too_long s.files i x at, h.short)

  finish_connect-Visited :
      (i : ℕ) (x : File) (s : Web W)
      → IsSound v s
      → get_elem? s.files i ≡ some x
      → x.f_flags ≡ f_connecting
      → Returns (λ _ s'. Visited v rs ws i s s') (finish_connect i x s)
  unfolding finish_connect
  finish_connect-Visited i x s h at k =
      let a = net.so_error x.f_fd s.world in
      let e =
        if a.0
        then (codes "nonblocking connect failed for " ++ x.f_name) ∷ s.errors
        else s.errors in
      let o = s.output ++ (codes "connection established for " ++ x.f_name ++ 10 ∷ []) in
      let s₁ = record s { world = a.1; errors = e; output = o; wset = fd_clr x.f_fd s.wset } in
      let (l, o', r) =
        write_get_cmd_lem i x s₁ at (short_at s i x h at) (used_at v s i x h at (ap is_open k)).2 in
      let q = laws.so_error x.f_fd s.world in
      let q' = laws.writen x.f_fd l a.1 in
      rw r (
        moved v rs ws i s _ x (record x { f_flags = f_reading }) h
          (connecting-reading v s (net.writen x.f_fd l a.1) (λ g z. q'.0 g (q.0 g z)) i x o' e h at
            k (omega (arith, q.2, q'.2)))
          (omega (arith, q.1, q'.1)) (omega arith) (rw k (omega arith)))

  read_some-Visited :
      (i : ℕ) (x : File) (s : Web W)
      → IsSound v s
      → get_elem? s.files i ≡ some x
      → x.f_flags ≡ f_reading
      → Returns (λ _ s'. Visited v rs ws i s s') (read_some i x s)
  unfolding read_some at_end_of_file
  read_some-Visited i x s h at k =
      let q = laws.read x.f_fd maxline s.world in
      let w = (net.read x.f_fd maxline s.world).1 in
      let c = laws.close x.f_fd w in
      branch-Returns (λ _ s'. Visited v rs ws i s s') (is_zero (net.read x.f_fd maxline s.world).0)
        (at_end_of_file i x) _ (record s { world = w })
        (λ e.
          moved v rs ws i s _ x (record x { f_flags = f_done }) h
            (reading-done v s (net.close x.f_fd w) i x
              (s.output ++ (codes "end-of-file on " ++ x.f_name ++ 10 ∷ [])) h at k
              (λ g z o. c.0 g z (q.0.0 g o)) (omega (arith, q.0.2, c.2)))
            (omega (arith, q.0.1, c.1)) (omega arith) (rw k (omega arith)))
        (λ e. untouched v rs ws i s w _ h q.0 (λ z a r. q.1 e))

  -- Where nothing is ready, nothing happens.
  idle :
      (i : ℕ) (x : File) (s : Web W)
      → IsSound v s
      → get_elem? s.files i ≡ some x
      → is_ready rs ws x x.f_flags ≡ false
      → Visited v rs ws i s s
  idle i x s h at k =
      untouched v rs ws i s s.world s.output h ((λ g z. z), omega arith, omega arith)
        (λ y b r. absurd (not_both y b r))
    where
      not_both : (y : File) → get_elem? s.files i ≡ some y → is_ready rs ws y y.f_flags ≡ true → ⊥
      not_both y b r =
          let p : x ≡ y = some-injective _ _ (sym at ∙ b) in
          let q : is_ready rs ws y y.f_flags ≡ false =
            subst (λ z. is_ready rs ws z z.f_flags ≡ false) p k in
          cc

  by_flags-Visited :
      (i : ℕ) (x : File) (s : Web W) (f : Flags)
      → IsSound v s
      → get_elem? s.files i ≡ some x
      → x.f_flags ≡ f
      → Returns (λ _ s'. Visited v rs ws i s s') (by_flags rs ws i x f s)
  unfolding by_flags
  by_flags-Visited i x s f_none h at k = idle i x s h at (rw k refl)
  by_flags-Visited i x s f_done h at k = idle i x s h at (rw k refl)
  by_flags-Visited i x s f_connecting h at k =
      branch-Returns (λ _ s'. Visited v rs ws i s s') (rs x.f_fd || ws x.f_fd) (finish_connect i x)
        (pure tt) s (λ e. finish_connect-Visited i x s h at k) (λ e. idle i x s h at (rw k e))
  by_flags-Visited i x s f_reading h at k =
      branch-Returns (λ _ s'. Visited v rs ws i s s') (rs x.f_fd) (read_some i x) (pure tt) s
        (λ e. read_some-Visited i x s h at k) (λ e. idle i x s h at (rw k e))

  pub visit-Visited :
      (i : ℕ) (x : File) (s : Web W)
      → IsSound v s
      → get_elem? s.files i ≡ some x
      → Returns (λ _ s'. Visited v rs ws i s s') (visit rs ws i s)
  unfolding visit
  visit-Visited i x s h at = rw at (by_flags-Visited i x s x.f_flags h at refl)
