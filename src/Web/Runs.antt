-- ===== src/Web/Runs.antt =====
-- Whole runs of c_code/unp/web/web.c.
use somenote.Common.{
  ℕ, zero, suc, ◌+◌, ◌≤◌, ◌<◌, ◌≡◌, ◌⊎◌, refl, sym, ap, ◌∙◌, true, false, ◌||◌, ltb, List, ◌++◌,
  length, map, arith,
}
use somenote.Libc.Int.{pos, is_zero}
use somenote.Libc.Returns.{Returns, Returns-mono, and_then-Returns, branch-Returns}
use somenote.Web.State.{
  maxline, serv, Flags, f_none, f_connecting, f_reading, f_done, is_none, FdSet, Net, Web, count_of,
}
use somenote.Web.Files.{bit, steps_left, unconnected, steps, total_mono}
use somenote.Web.Connect.{get_cmd, connect_loop}
use somenote.Web.Main.{wait, scan, main_loop, home_line, home_loop, home_page}
use somenote.Web.Sound.{View, Serves, IsSound, rank, names}
use somenote.Web.Sound.Visits.{Keeps-IsSound, line_bytes-short}
use somenote.Web.Sound.Scans.{scan-nearer, same_files}
use somenote.Web.Sound.Opens.{IsFilled, connect_loop-fills}
use somenote.Web.Ready.{HasReady, ready_file, some_open}

module _ {W : Type 0} ⦃net : Net W⦄ (v : View W) (laws : Serves net v) where
  -- The call of select returns, and a file is ready.
  abbrev Woken : Web W → (FdSet × FdSet) → Web W → Type 0
  Woken s r s' =
      IsSound v s' × (s'.files ≡ s.files) × (rank v s' ≤ rank v s) × HasReady s'.files r.0 r.1

  wait-Woken :
      (m : ℕ) (s : Web W)
      → IsSound v s
      → 0 < s.nlefttoread
      → (suc m ≤ s.nconn) ⊎ (s.nlefttoconn ≡ 0)
      → Returns (λ r s'. Woken s r s') (wait s)
  unfolding wait
  wait-Woken m s h p e =
      let (fd, q, r) = some_open v s h m p e in
      let (rs, ws, w, k, (g, b), keep) =
        laws.select (count_of s.maxfd) fd s.rset s.wset s.world q (ap (λ b. b || s.wset fd) r) in
      rw (Returns, k)
        (
          Keeps-IsSound v s w s.output h keep,
          refl,
          omega (arith, keep.1),
          ready_file v s h rs ws g b,
        )

  -- The variables are sound, the files the same, and fewer steps are left.
  abbrev Nearer : Web W → Web W → Type 0
  Nearer s s' = IsSound v s' × (names s' ≡ names s) × (rank v s' < rank v s)

  -- The files are read.
  abbrev pub AllRead : Web W → Web W → Type 0
  AllRead s s' = IsSound v s' × (names s' ≡ names s) × (s'.nlefttoread ≡ 0)

  few_left : (s : Web W) → IsSound v s → s.nlefttoconn ≤ rank v s
  few_left s h =
      omega (arith, h.to_connect, total_mono unconnected steps s.files (λ x. by_flags x.f_flags))
    where
      by_flags : (f : Flags) → bit (is_none f) ≤ steps_left f
      by_flags f_none = omega arith
      by_flags f_connecting = omega arith
      by_flags f_reading = omega arith
      by_flags f_done = omega arith

  pub main_loop-AllRead :
      (f m : ℕ) (s : Web W)
      → IsSound v s
      → rank v s < f
      → Returns (λ _ s'. AllRead s s') (main_loop f (pos (suc m)) s)
  unfolding main_loop
  main_loop-AllRead zero m s h g = absurd (omega arith)
  main_loop-AllRead (suc f) m s h g =
      branch-Returns (λ _ s'. AllRead s s') (ltb 0 s.nlefttoread) _ _ s
        (λ e.
          and_then-Returns (λ _ s₁. IsFilled v laws (suc m) s s₁) (λ _ s'. AllRead s s')
            (connect_loop (suc f) (pos (suc m)) s) _
            (connect_loop-fills v laws (suc f) (suc m) s h (omega (arith, few_left s h, g)))
            (λ _ s₁ (h₁, n₁, r₁, t₁, e₁, c₁).
              and_then-Returns (λ r s₂. Woken s₁ r s₂) (λ _ s'. AllRead s s') (wait s₁) _
                (wait-Woken m s₁ h₁ (omega (arith, held _ e, t₁)) e₁)
                (λ (rs, ws) s₂ (h₂, n₂, r₂, (j, x, at, k)).
                  let l : length s.files ≡ length s₂.files =
                    sym (same_files s s₁ n₁) ∙ sym (ap length n₂) in
                  let same : names s₂ ≡ names s = ap (map (λ y. y.f_name)) n₂ ∙ n₁ in
                  and_then-Returns (λ _ s₃. Nearer s₂ s₃) (λ _ s'. AllRead s s')
                    (scan rs ws 0 (length s.files) s₂) (λ _. main_loop f (pos (suc m)))
                    (rw l (scan-nearer v laws rs ws j x s₂ h₂ at k))
                    (λ _ s₃ (h₃, n₃, r₃).
                      Returns-mono (λ _ s'. AllRead s₃ s') (λ _ s'. AllRead s s')
                        (main_loop f (pos (suc m)) s₃)
                        (main_loop-AllRead f m s₃ h₃ (omega (arith, g, r₁, r₂, r₃)))
                        (λ _ s' (h', n', t'). (h', n' ∙ n₃ ∙ same, t'))))))
        (λ e. (h, refl, none_left s.nlefttoread e))
    where
      held : (n : ℕ) → ltb 0 n ≡ true → 0 < n
      held n h = ground arith

      none_left : (n : ℕ) → ltb 0 n ≡ false → n ≡ 0
      none_left n h = ground arith

  -- The home page leaves the files as they are.
  abbrev pub OnlyReads : Web W → Web W → Type 0
  OnlyReads s s' =
      (s'.files ≡ s.files)
      × (v.pending s'.world ≤ v.pending s.world)
      × (v.room s.world ≤ v.room s'.world + 1)

  -- The same, where no socket is taken.
  abbrev KeepsFiles : Web W → Web W → Type 0
  KeepsFiles s s' =
      (s'.files ≡ s.files)
      × (v.pending s'.world ≤ v.pending s.world)
      × (v.room s.world ≤ v.room s'.world)

  home_loop-KeepsFiles :
      (f fd : ℕ) (s : Web W)
      → v.pending s.world < f
      → Returns (λ _ s'. KeepsFiles s s') (home_loop f fd s)
  unfolding home_loop
  home_loop-KeepsFiles zero fd s g = absurd (omega arith)
  home_loop-KeepsFiles (suc f) fd s g =
      let r = net.read fd maxline s.world in
      let q = laws.read fd maxline s.world in
      let s₁ = record s { world = r.1; output = s.output ++ home_line r.0 } in
      branch-Returns (λ _ s'. KeepsFiles s s') (is_zero r.0) _ _ (record s { world = r.1 })
        (λ e. (refl, q.0.1, q.0.2))
        (λ e.
          Returns-mono (λ _ s'. KeepsFiles s₁ s') (λ _ s'. KeepsFiles s s') (home_loop f fd s₁)
            (home_loop-KeepsFiles f fd s₁ (omega (arith, q.1 e, g)))
            (λ _ s' (k, p, r'). (k, omega (arith, p, q.0.1), omega (arith, r', q.0.2))))

  pub home_page-OnlyReads :
      (f : ℕ) (host page : List ℕ) (s : Web W)
      → v.pending s.world < f
      → length (get_cmd page) ≤ maxline
      → Returns (λ _ s'. OnlyReads s s') (home_page f host page s)
  unfolding home_page
  home_page-OnlyReads f host page s g short =
      let (fd, w, e, p, r) = laws.tcp_connect host serv s.world in
      let (l, k) = line_bytes-short (get_cmd page) (fits (length (get_cmd page)) short) in
      let q = laws.writen fd l w in
      let s₁ = record s { world = net.writen fd l w } in
      rw (e, k)
        (and_then-Returns (λ _ s'. KeepsFiles s₁ s') (λ _ s'. OnlyReads s s') (home_loop f fd s₁) _
          (home_loop-KeepsFiles f fd s₁ (omega (arith, g, p, q.1)))
          (λ _ s' (k', p', r').
            let c = laws.close fd s'.world in
            (k', omega (arith, p, q.1, p', c.1), omega (arith, r, q.2, r', c.2))))
    where
      fits : (n : ℕ) → n ≤ maxline → bit (ltb maxline n) ≡ 0
      fits n h = ground arith
