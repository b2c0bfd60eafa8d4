-- ===== src/Web/Gets.antt =====
-- `main` of c_code/unp/web/web.c, from its arguments to the end of the last file.
use somenote.Common.{
  length-map, ℕ, zero, suc, ◌+◌, ◌*◌, ◌^◌, append-nil, ◌≤◌, ◌<◌, ◌≡◌, refl, sym, ap, ◌∙◌, false,
  ltb, ◌&&◌, ◌==◌, List, [], ◌∷◌, ◌++◌, length, take, map, length-take, arith,
}
use somenote.Libc.Int.{pos}
use somenote.Libc.Decimal.{decimal, atol}
use somenote.Libc.Decimal.RoundTrip.{atol-decimal}
use somenote.Libc.Text.{codes}
use somenote.Libc.Scan.{show_int}
use somenote.Libc.Returns.{Returns, Returns-mono, and_then-Returns}
use somenote.Web.State.{
  maxfiles, maxline, Flags, f_none, f_connecting, f_reading, f_done, is_none, File, Net, Web,
  fd_zero,
}
use somenote.Web.Files.{
  is_connecting, bit, is_open, is_left, unconnected, opening, unread, holds, dials, too_long, steps,
  total, total_mono,
}
use somenote.Web.Connect.{get_cmd}
use somenote.Web.Main.{new_file, begin, reset, home_page, main_loop, main}
use somenote.Web.Sound.{View, Serves, IsSound, rank, names}
use somenote.Web.Runs.{AllRead, OnlyReads, main_loop-AllRead, home_page-OnlyReads}

-- The commands for the names fit into their lines.
abbrev pub FitLines : List (List ℕ) → Type 0
FitLines [] = Unit {0}
FitLines (n ∷ ns) = (length (get_cmd n) ≤ maxline) × FitLines ns

take-FitLines : (k : ℕ) (ns : List (List ℕ)) → FitLines ns → FitLines (take k ns)
take-FitLines zero ns h = tt
take-FitLines (suc k) [] h = tt
take-FitLines (suc k) (n ∷ ns) h = (h.0, take-FitLines k ns h.1)

fits : (n : ℕ) → n ≤ maxline → bit (ltb maxline n) ≡ 0
fits n h = ground arith

-- The files at the start.
module _ (host : List ℕ) where
  total-new :
      (f : File → ℕ) (c : ℕ) (ns : List (List ℕ))
      → ((n : List ℕ) → f (new_file host n) ≡ c)
      → total f (map (new_file host) ns) ≡ c * length ns
  unfolding total
  total-new f c [] h = omega arith
  total-new f c (n ∷ ns) h = let r = total-new f c ns h in ground (arith, h n)

  names-new : (ns : List (List ℕ)) → map (λ (x : File). x.f_name) (map (new_file host) ns) ≡ ns
  unfolding new_file
  names-new [] = refl
  names-new (n ∷ ns) = ap (λ t. n ∷ t) (names-new ns)

  total-short : (ns : List (List ℕ)) → FitLines ns → total too_long (map (new_file host) ns) ≡ 0
  unfolding total new_file
  total-short [] h = refl
  total-short (n ∷ ns) h = omega (arith, fits (length (get_cmd n)) h.0, total-short ns h.1)

module _ {W : Type 0} (v : View W) where
  -- What `reset` leaves is sound.
  pub reset-IsSound :
      (host : List ℕ) (ns : List (List ℕ)) (s : Web W)
      → FitLines ns
      → s.files ≡ map (new_file host) ns
      → length ns ≤ v.room s.world
      → Returns
          (λ _ s'. IsSound v s' × (names s' ≡ ns) × (rank v s' ≡ v.pending s.world + 3 * length ns))
          (reset s)
  unfolding reset fd_zero new_file
  reset-IsSound host ns s h e more = (
    record {
      to_connect = omega (arith, size, sum unconnected 1 (λ n. refl));
      connections = omega (arith, sum opening 0 (λ n. refl));
      to_read = omega (arith, size, sum unread 1 (λ n. refl));
      readers = λ g. sym (nothing _ (none_held g));
      writers = λ g. sym (nothing _ (omega (arith, sum (dials g) 0 (λ n. refl))));
      alone = λ g. omega (arith, none_held g);
      used = λ g q. absurd (omega (arith, none_held g, q));
      short = ap (total too_long) e ∙ total-short host ns h;
      enough = omega (arith, more, sum unconnected 1 (λ n. refl));
    },
    ap (map (λ x. x.f_name)) e ∙ names-new host ns,
    omega (arith, sum steps 3 (λ n. refl)),
  )
    where
      sum :
          (f : File → ℕ) (c : ℕ)
          → ((n : List ℕ) → f (new_file host n) ≡ c)
          → total f s.files ≡ c * length ns
      sum f c k = ap (total f) e ∙ total-new host f c ns k

      size : length s.files ≡ length ns
      size = ap length e ∙ length-map (new_file host) ns

      none_held : (g : ℕ) → total (holds g) s.files ≡ 0
      none_held g = omega (arith, sum (holds g) 0 (λ n. refl))

      nothing : (n : ℕ) → n ≡ 0 → ltb 0 n ≡ false
      nothing n k = ground arith

-- What the flags of the files say at the end.
open-le-left : (f : Flags) → bit (is_open f) ≤ bit (is_left f)
open-le-left f_none = omega arith
open-le-left f_connecting = omega arith
open-le-left f_reading = omega arith
open-le-left f_done = omega arith

holds-le-left : (g : ℕ) (x : File) → holds g x ≤ unread x
holds-le-left g x = by_flags x.f_flags
  where
    by_flags : (f : Flags) → bit (is_open f && x.f_fd == g) ≤ bit (is_left f)
    by_flags f_none = omega arith
    by_flags f_connecting = ground arith
    by_flags f_reading = ground arith
    by_flags f_done = omega arith

dials-le-left : (g : ℕ) (x : File) → dials g x ≤ unread x
dials-le-left g x = by_flags x.f_flags
  where
    by_flags : (f : Flags) → bit (is_connecting f && x.f_fd == g) ≤ bit (is_left f)
    by_flags f_none = omega arith
    by_flags f_connecting = ground arith
    by_flags f_reading = omega arith
    by_flags f_done = omega arith

module _ {W : Type 0} where
  -- Every file has been read, no connection is open, and the sets are empty.
  abbrev pub IsFinished : Web W → Type 0
  IsFinished s =
      (total unread s.files ≡ 0)
      × (s.nconn ≡ 0)
      × (s.nlefttoconn ≡ 0)
      × ((g : ℕ) → (s.rset g ≡ false) × (s.wset g ≡ false))

  finished : (v : View W) (s : Web W) → IsSound v s → s.nlefttoread ≡ 0 → IsFinished s
  finished v s h e =
      let left : total unread s.files ≡ 0 = omega (arith, h.to_read, e) in
      (
        left,
        omega (
          arith,
          left,
          h.connections,
          total_mono opening unread s.files (λ x. open-le-left x.f_flags),
        ),
        omega (
          arith,
          left,
          h.to_connect,
          total_mono unconnected unread s.files (λ x. none-le-left x.f_flags),
        ),
        λ g. (
          h.readers g
              ∙ nothing _
                  (omega (arith, left, total_mono (holds g) unread s.files (holds-le-left g))),
          h.writers g
              ∙ nothing _
                  (omega (arith, left, total_mono (dials g) unread s.files (dials-le-left g))),
        ),
      )
    where
      none-le-left : (f : Flags) → bit (is_none f) ≤ bit (is_left f)
      none-le-left f_none = omega arith
      none-le-left f_connecting = omega arith
      none-le-left f_reading = omega arith
      none-le-left f_done = omega arith

      nothing : (n : ℕ) → n ≡ 0 → ltb 0 n ≡ false
      nothing n k = ground arith

module _ {W : Type 0} ⦃net : Net W⦄ (v : View W) (laws : Serves net v) where
  -- On a network that gives sockets while it has room, makes or begins connections, wakes
  -- select for them and ends each file, with room for more than 20 sockets, for arguments
  -- that name a positive number of an int, a host, a page and files whose commands fit into
  -- the line, and with 60 rounds more than there are reads before the ends of the files,
  -- main returns; it has taken the first 20 files, every one of them has been read to its
  -- end, none is counted as open or left, and no descriptor is waited for.
  pub main-IsFinished :
      (f m : ℕ) (prog host page : List ℕ) (ns : List (List ℕ)) (s : Web W)
      → suc m < 2 ^ 31
      → FitLines (page ∷ ns)
      → 20 < v.room s.world
      → v.pending s.world + 60 < f
      → Returns
          (λ _ s'. IsFinished s' × (names s' ≡ take maxfiles ns))
          (main f (prog ∷ decimal (suc m) ∷ host ∷ page ∷ ns) s)
  unfolding main begin
  main-IsFinished f m prog host page ns s int h more g =
      let l = take maxfiles ns in
      let c = length-take maxfiles ns in
      rw (number m int) (
        and_then-Returns (λ _ s₁. OnlyReads v laws (begun s) s₁) Q (home_page f host page (begun s))
          _ (home_page-OnlyReads v laws f host page (begun s) (omega (arith, g)) h.0)
          (λ _ s₁ (k, p, room).
            and_then-Returns
              (λ _ s₂.
                IsSound v s₂ × (names s₂ ≡ l) × (rank v s₂ ≡ v.pending s₁.world + 3 * length l))
              Q (reset s₁) (λ _. main_loop f (pos (suc m)))
              (reset-IsSound v host l s₁ (take-FitLines maxfiles ns h.1) k
                (omega (arith, room, more, c)))
              (λ _ s₂ (h₂, n₂, r₂).
                Returns-mono (λ _ s'. AllRead v laws s₂ s') Q (main_loop f (pos (suc m)) s₂)
                  (main_loop-AllRead v laws f m s₂ h₂ (omega (arith, r₂, p, g, c)))
                  (λ _ s' (h', n', t'). (finished v s' h' t', n' ∙ n₂)))))
    where
      number : (m : ℕ) → suc m < 2 ^ 31 → atol (decimal (suc m)) ≡ pos (suc m)
      number m int =
          ap atol (sym (append-nil (decimal (suc m)))) ∙ atol-decimal (suc m) [] (omega arith) tt

      Q : Unit {0} → Web W → Type 0
      Q _ s' = IsFinished s' × (names s' ≡ take maxfiles ns)

      begun : Web W → Web W
      begun s = record s {
        files = map (new_file host) (take maxfiles ns);
        output =
            s.output
            ++ (codes "nfiles = "
                ++ show_int (pos (length (map (new_file host) (take maxfiles ns))))
                ++ 10 ∷ []);
      }
