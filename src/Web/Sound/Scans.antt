-- ===== src/Web/Sound/Scans.antt =====
-- The loop of `main` of c_code/unp/web/web.c over the files, behind a call of select.
use somenote.Common.{
  length-map, ℕ, zero, suc, ◌+◌, ◌≤◌, ◌<◌, ◌≡◌, refl, sym, ap, ◌∙◌, Bool, true, false, ◌==◌, some,
  get_elem?, length, arith,
}
use somenote.Libc.Returns.{Returns, Returns-mono, and_then-Returns}
use somenote.Web.State.{File, FdSet, Net, Web}
use somenote.Web.Files.{elem_at, elem_within}
use somenote.Web.Main.{visit, scan}
use somenote.Web.Sound.{View, Serves, IsSound, rank, names}
use somenote.Web.Sound.Visits.{is_ready, Visited, visit-Visited}

pub same_files : {W : Type 0} (s s' : Web W) → names s' ≡ names s → length s'.files ≡ length s.files
same_files s s' e =
    sym (length-map (λ x. x.f_name) s'.files) ∙ ap length e ∙ length-map (λ x. x.f_name) s.files

module _ {W : Type 0} where
  -- The variables are sound, the files the same, there is no new connection, and if a file from `i`
  -- on had something to do, the program has come nearer to its end.
  pub record Scanned (v : View W) (rs ws : FdSet) (i : ℕ) (s s' : Web W) : Type 0 where
    pub sound : IsSound v s'
    pub names_kept : names s' ≡ names s
    pub no_more : s'.nconn ≤ s.nconn
    pub rank_le : rank v s' ≤ rank v s
    pub nearer :
        (j : ℕ) (x : File)
        → i ≤ j
        → get_elem? s.files j ≡ some x
        → is_ready rs ws x x.f_flags ≡ true
        → rank v s' < rank v s

  Visited-first :
      (v : View W) (rs ws : FdSet) (i : ℕ) (s s₁ s' : Web W)
      → Visited v rs ws i s s₁
      → Scanned v rs ws (suc i) s₁ s'
      → Scanned v rs ws i s s'
  Visited-first v rs ws i s s₁ s' a b = record {
    sound = b.sound;
    names_kept = b.names_kept ∙ a.names_kept;
    no_more = omega (arith, a.no_more, b.no_more);
    rank_le = omega (arith, a.rank_le, b.rank_le);
    nearer = λ j x h at r. by_place j x h at r (i == j) refl;
  }
    where
      by_place :
          (j : ℕ) (x : File)
          → i ≤ j
          → get_elem? s.files j ≡ some x
          → is_ready rs ws x x.f_flags ≡ true
          → (c : Bool) → (i == j) ≡ c
          → rank v s' < rank v s
      by_place j x h at r true e =
          let p : i ≡ j = ground arith in
          let d = a.nearer x (ap (get_elem? s.files) p ∙ at) r in omega (arith, d, b.rank_le)
      by_place j x h at r false e =
          let d = b.nearer j x (ground arith) (a.others j e ∙ at) r in omega (arith, d, a.rank_le)

module _ {W : Type 0} ⦃net : Net W⦄ (v : View W) (laws : Serves net v) (rs ws : FdSet) where
  scan-Scanned :
      (k i : ℕ) (s : Web W)
      → IsSound v s
      → i + k ≡ length s.files
      → Returns (λ _ s'. Scanned v rs ws i s s') (scan rs ws i k s)
  unfolding scan
  scan-Scanned zero i s h e = record {
    sound = h;
    names_kept = refl;
    no_more = omega arith;
    rank_le = omega arith;
    nearer = λ j x le at r. absurd (omega (arith, e, le, elem_within s.files j x at));
  }
  scan-Scanned (suc k) i s h e =
      let (x, at) = elem_at s.files i (omega arith) in
      and_then-Returns (λ _ s'. Visited v rs ws i s s') (λ _ s'. Scanned v rs ws i s s')
        (visit rs ws i s) (λ _. scan rs ws (suc i) k) (visit-Visited v laws rs ws i x s h at)
        (λ _ s₁ a.
          Returns-mono (λ _ s'. Scanned v rs ws (suc i) s₁ s') (λ _ s'. Scanned v rs ws i s s')
            (scan rs ws (suc i) k s₁)
            (scan-Scanned k (suc i) s₁ a.sound (omega (arith, e, same_files s s₁ a.names_kept)))
            (λ _ s' b. Visited-first v rs ws i s s₁ s' a b))

  -- On such a network, from variables that are sound (the counters count the files by their
  -- flags, the sets hold the descriptors of the connections, each has its own, up to
  -- maxfd), the loop over the files returns whatever sets select has filled; the variables
  -- are sound again, the files the same, and no connection and no step has been added.
  pub scan-IsSound :
      (s : Web W)
      → IsSound v s
      → Returns
          (λ _ s'.
            IsSound v s' × (names s' ≡ names s) × (s'.nconn ≤ s.nconn) × (rank v s' ≤ rank v s))
          (scan rs ws 0 (length s.files) s)
  scan-IsSound s h =
      Returns-mono (λ _ s'. Scanned v rs ws 0 s s') _ (scan rs ws 0 (length s.files) s)
        (scan-Scanned (length s.files) 0 s h (omega arith))
        (λ _ s' b. (b.sound, b.names_kept, b.no_more, b.rank_le))

  -- Where a file is ready.
  pub scan-nearer :
      (j : ℕ) (x : File) (s : Web W)
      → IsSound v s
      → get_elem? s.files j ≡ some x
      → is_ready rs ws x x.f_flags ≡ true
      → Returns
          (λ _ s'. IsSound v s' × (names s' ≡ names s) × (rank v s' < rank v s))
          (scan rs ws 0 (length s.files) s)
  scan-nearer j x s h at r =
      Returns-mono (λ _ s'. Scanned v rs ws 0 s s') _ (scan rs ws 0 (length s.files) s)
        (scan-Scanned (length s.files) 0 s h (omega arith))
        (λ _ s' b. (b.sound, b.names_kept, b.nearer j x (omega arith) at r))
