-- ===== src/Web/Sound/Opens.antt =====
-- The loop of `main` of c_code/unp/web/web.c that opens connections.
use somenote.Common.{
  ℕ, zero, suc, ◌+◌, ◌-◌, ◌≤◌, ◌<◌, ◌≡◌, ◌≢◌, refl, ap, ◌∙◌, Bool, true, false, ◌&&◌, ◌==◌, ltb,
  List, [], ◌∷◌, some, set, get_elem?, length, map, arith, max, ◌⊎◌,
}
use somenote.Libc.Int.{pos}
use somenote.Libc.Returns.{Returns, Returns-mono, and_then-Returns, branch-Returns}
use somenote.Web.State.{
  Flags, f_none, f_connecting, f_reading, f_done, File, Net, Web, Connected, at_once, in_progress,
  failed, fd_setsize, is_none, serv,
}
use somenote.Web.Files.{
  bit, is_open, is_left, steps_left, unconnected, opening, unread, too_long, steps, total,
  total-set, total-at, map-set, set_same, set-set,
}
use somenote.Web.Connect.{
  connected, start_connect, first_left, connect_next, connect_loop, below_limit, set_rset, set_wset,
  raise_maxfd,
}
use somenote.Web.Sound.{View, Takes, Serves, IsSound, rank, names}
use somenote.Web.Sound.Moves.{Move, Move-IsSound}
use somenote.Web.Sound.Kinds.{none-connecting, none-reading}
use somenote.Web.Sound.Visits.{write_get_cmd_lem}

is_none-eq : (f : Flags) → is_none f ≡ true → f ≡ f_none
is_none-eq f_none h = refl
is_none-eq f_connecting h = absurd cc
is_none-eq f_reading h = absurd cc
is_none-eq f_done h = absurd cc

-- The first file without a connection.
abbrev IsFirstLeft : List File → Type 0
IsFirstLeft xs =
    (x : File) × (get_elem? xs (first_left xs) ≡ some x)
    × (x.f_flags ≡ f_none)
    × ((first_left xs == length xs) ≡ false)

IsFirstLeft-at : (xs : List File) → 0 < total unconnected xs → IsFirstLeft xs
unfolding first_left total
IsFirstLeft-at [] h = absurd (omega arith)
IsFirstLeft-at (x ∷ xs) h = by_first (is_none x.f_flags) refl (IsFirstLeft-at xs)
  where
    next_place : (m n : ℕ) → (m == n) ≡ false → (suc m == suc n) ≡ false
    next_place m n h = ground arith

    no_place : (n : ℕ) → (0 == suc n) ≡ false
    no_place n = ground arith

    by_first :
        (b : Bool)
        → is_none x.f_flags ≡ b
        → (0 < total unconnected xs → IsFirstLeft xs)
        → IsFirstLeft (x ∷ xs)
    by_first true e r = (x, rw e refl, is_none-eq x.f_flags e, rw e (no_place (length xs)))
    by_first false e r =
        let p : unconnected x ≡ 0 = rw e refl in
        let (y, at, k, q) = r (omega (arith, h, p)) in
        (y, rw e at, k, rw e (next_place (first_left xs) (length xs) q))

module _ {W : Type 0} where
  -- One connection more: the variables are sound, and one file less is left.
  pub record Opened (v : View W) (s s' : Web W) : Type 0 where
    pub sound : IsSound v s'
    pub names_kept : names s' ≡ names s
    pub rank_le : rank v s' ≤ rank v s
    one_more : s'.nconn ≡ s.nconn + 1
    one_less : s'.nlefttoconn + 1 ≡ s.nlefttoconn
    pub to_read : s'.nlefttoread ≡ s.nlefttoread

  opened :
      (v : View W) (i : ℕ) (s s' : Web W) (x y : File)
      → IsSound v s
      → Move v s s' i x y
      → v.pending s'.world ≤ v.pending s.world
      → x.f_flags ≡ f_none
      → is_open y.f_flags ≡ true
      → Opened v s s'
  opened v i s s' x y h m p k o =
      let (a, b, c, d) = was in
      let (a', b', c', d') = becomes y.f_flags o in
      record {
        sound = Move-IsSound m h;
        names_kept =
            ap (map (λ z. z.f_name)) m.files ∙ map-set (λ z. z.f_name) s.files i x y m.found m.name;
        rank_le = omega (arith, fewer, p, d, d');
        one_more = omega (arith, m.connections, b, b');
        one_less = omega (arith, m.to_connect, a, a');
        to_read = omega (arith, m.to_read, c, c');
      }
    where
      fewer : total steps s'.files + steps x ≡ total steps s.files + steps y
      fewer = ap (λ l. total steps l + steps x) m.files ∙ total-set steps s.files i x y m.found

      was : (unconnected x ≡ 1) × (opening x ≡ 0) × (unread x ≡ 1) × (steps x ≡ 3)
      was = (rw k refl, rw k refl, rw k refl, rw k refl)

      becomes :
          (f : Flags)
          → is_open f ≡ true
          → (bit (is_none f) ≡ 0)
            × (bit (is_open f) ≡ 1)
            × (bit (is_left f) ≡ 1)
            × (steps_left f ≤ 2)
      becomes f_none h = absurd cc
      becomes f_connecting h = (refl, refl, refl, omega arith)
      becomes f_reading h = (refl, refl, refl, omega arith)
      becomes f_done h = absurd cc

module _ {W : Type 0} ⦃net : Net W⦄ (v : View W) (laws : Serves net v) where
  -- One more connection, and one file less without one.
  counted : Web W → Web W
  counted s = record s { nconn = s.nconn + 1; nlefttoconn = s.nlefttoconn - 1 }

  short_fd : (n : ℕ) → n < fd_setsize → ltb n fd_setsize ≡ true
  short_fd n h = ground arith

  -- Behind the call of connect.
  connected-Opened :
      (c : Connected) (i : ℕ) (x : File) (fd : ℕ) (o : List ℕ) (s : Web W) (w : W)
      → IsSound v s
      → get_elem? s.files i ≡ some x
      → x.f_flags ≡ f_none
      → v.opened fd s.world ≡ false
      → v.opened fd w ≡ true
      → fd < fd_setsize
      → Takes v s.world w
      → c ≢ failed
      → Returns
          (λ _ s'. Opened v s (counted s'))
          (connected i fd c
            (record s { world = w; output = o; files = set s.files i (record x { f_fd = fd }) }))
  unfolding connected set_rset set_wset raise_maxfd counted
  connected-Opened failed i x fd o s w h at k shut now small keep c = absurd (c refl)
  connected-Opened in_progress i x fd o s w h at k shut now small keep c =
      let e = set_same s.files i x (record x { f_fd = fd }) at in
      rw
        (
          e,
          short_fd fd small,
          set-set s.files i (record x { f_fd = fd })
              (record x { f_fd = fd; f_flags = f_connecting }),
        )
        (opened v i s _ x (record x { f_fd = fd; f_flags = f_connecting }) h
          (none-connecting v s w keep.0 i x fd o h at k shut now small keep.2) keep.1 k refl)
  connected-Opened at_once i x fd o s w h at k shut now small keep c =
      let e = set_same s.files i x (record x { f_fd = fd }) at in
      let s₁ = record s { world = w; output = o; files = set s.files i (record x { f_fd = fd }) } in
      let short : too_long x ≡ 0 = omega (arith, total-at too_long s.files i x at, h.short) in
      let (l, o', r) = write_get_cmd_lem i (record x { f_fd = fd }) s₁ e short small in
      let q = laws.writen fd l w in
      rw
        (
          r,
          set-set s.files i (record x { f_fd = fd }) (record x { f_fd = fd; f_flags = f_reading }),
        )
        (opened v i s _ x (record x { f_fd = fd; f_flags = f_reading }) h
          (none-reading v s (net.writen fd l w) (λ g z. q.0 g (keep.0 g z)) i x fd o' h at k shut
            (q.0 fd now) small (omega (arith, q.2, keep.2)))
          (omega (arith, q.1, keep.1)) k refl)

  start_connect-Opened :
      (i : ℕ) (x : File) (s : Web W)
      → IsSound v s
      → get_elem? s.files i ≡ some x
      → x.f_flags ≡ f_none
      → 0 < v.room s.world
      → Returns (λ _ s'. Opened v s (counted s')) (start_connect i s)
  unfolding start_connect
  start_connect-Opened i x s h at k room =
      let (fd, w, e, shut, now, small, keep) = laws.socket x.f_host serv s.world room in
      let a = laws.nonblock fd w in
      let c = laws.connect fd x.f_host (net.nonblock fd w) in
      rw (at, e)
        (connected-Opened (net.connect fd x.f_host (net.nonblock fd w)).0 i x fd _ s
          (net.connect fd x.f_host (net.nonblock fd w)).1 h at k shut (c.1.0 fd (a.0 fd now)) small
          (
            (λ g z. c.1.0 g (a.0 g (keep.0 g z))),
            omega (arith, c.1.1, a.1, keep.1),
            omega (arith, c.1.2, a.2, keep.2),
          )
          c.0)

  connect_next-Opened :
      (s : Web W)
      → IsSound v s
      → 0 < s.nlefttoconn
      → Returns (λ _ s'. Opened v s s') (connect_next s)
  unfolding connect_next counted
  connect_next-Opened s h p =
      let (x, at, k, q) = IsFirstLeft-at s.files (omega (arith, p, h.to_connect)) in
      and_then-Returns (λ _ s'. Opened v s (counted s')) (λ _ s'. Opened v s s') _ _
        (branch-Returns (λ _ s'. Opened v s (counted s')) (first_left s.files == length s.files) _
          (start_connect (first_left s.files)) s (λ e. absurd cc)
          (λ e.
            start_connect-Opened (first_left s.files) x s h at k
              (omega (arith, p, h.to_connect, h.enough))))
        (λ _ s' o. o)

  -- What the loop leaves: the limit is reached, or each file has had a connection.
  abbrev pub IsFilled : ℕ → Web W → Web W → Type 0
  IsFilled m s s' =
      IsSound v s'
      × (names s' ≡ names s)
      × (rank v s' ≤ rank v s)
      × (s'.nlefttoread ≡ s.nlefttoread)
      × ((m ≤ s'.nconn) ⊎ (s'.nlefttoconn ≡ 0))
      × (s'.nconn ≤ max s.nconn m)

  IsFilled-next :
      (m : ℕ) (s s₁ s' : Web W) → s.nconn < m → Opened v s s₁ → IsFilled m s₁ s' → IsFilled m s s'
  IsFilled-next m s s₁ s' p o (h, n, r, t, e, c) = (
    h,
    n ∙ o.names_kept,
    omega (arith, r, o.rank_le),
    t ∙ o.to_read,
    e,
    omega (arith, c, o.one_more, p),
  )

  -- On such a network, from variables that are sound, with more rounds than files without a
  -- connection, the loop that opens connections returns and does not end the process; the
  -- variables are sound again, the limit is reached or every file has had a connection, and
  -- the connections are no more than the limit or what they were.
  pub connect_loop-fills :
      (f m : ℕ) (s : Web W)
      → IsSound v s
      → s.nlefttoconn < f
      → Returns (λ _ s'. IsFilled m s s') (connect_loop f (pos m) s)
  unfolding connect_loop below_limit
  connect_loop-fills zero m s h g = absurd (omega arith)
  connect_loop-fills (suc f) m s h g =
      branch-Returns (λ _ s'. IsFilled m s s') (ltb s.nconn m && ltb 0 s.nlefttoconn) _ _ s
        (λ e.
          let (p, q) = goes_on s.nconn m s.nlefttoconn e in
          and_then-Returns (λ _ s₁. Opened v s s₁) (λ _ s'. IsFilled m s s') (connect_next s)
            (λ _. connect_loop f (pos m)) (connect_next-Opened s h q)
            (λ _ s₁ o.
              Returns-mono (λ _ s'. IsFilled m s₁ s') (λ _ s'. IsFilled m s s')
                (connect_loop f (pos m) s₁)
                (connect_loop-fills f m s₁ o.sound (omega (arith, o.one_less, g)))
                (λ _ s' r. IsFilled-next m s s₁ s' p o r)))
        (λ e. (h, refl, omega arith, refl, stops s.nconn m s.nlefttoconn e, omega arith))
    where
      goes_on : (n m l : ℕ) → (ltb n m && ltb 0 l) ≡ true → (n < m) × (0 < l)
      goes_on n m l e = ground arith

      stops : (n m l : ℕ) → (ltb n m && ltb 0 l) ≡ false → (m ≤ n) ⊎ (l ≡ 0)
      stops n m l e = ground arith
