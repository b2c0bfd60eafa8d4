-- ===== src/Web/Sound.antt =====
-- What the variables of c_code/unp/web/web.h say of the files, and what the network promises.
pub mod Moves
pub mod Visits
pub mod Kinds
pub mod Scans
pub mod Opens
use somenote.Common.{
  ℕ, zero, suc, ◌+◌, ◌≤◌, ◌<◌, ◌≡◌, ◌≢◌, ◌⊎◌, Bool, true, false, ◌&&◌, ◌||◌, ◌==◌, ltb, List,
  Option, none, some, map, arith,
}
use somenote.Libc.Int.{ℤ, is_zero}
use somenote.Web.State.{File, FdSet, Net, Web, Connected, failed, fd_setsize, above}
use somenote.Web.Files.{unconnected, opening, unread, steps, holds, dials, too_long, total}

-- What a network has to say: the descriptors that are open, the number of reads before the ends of
-- the files, and how many sockets more it gives.
pub record View (W : Type 0) : Type 0 where
  pub opened : ℕ → W → Bool
  pub pending : W → ℕ
  pub room : W → ℕ

module _ {W : Type 0} where
  -- What was open stays open, no more is to be read, and no fewer sockets are left, or one fewer.
  abbrev pub Keeps : View W → W → W → Type 0
  Keeps v w w' =
      ((g : ℕ) → v.opened g w ≡ true → v.opened g w' ≡ true)
      × (v.pending w' ≤ v.pending w)
      × (v.room w ≤ v.room w')

  abbrev pub Takes : View W → W → W → Type 0
  Takes v w w' =
      ((g : ℕ) → v.opened g w ≡ true → v.opened g w' ≡ true)
      × (v.pending w' ≤ v.pending w)
      × (v.room w ≤ v.room w' + 1)

  -- The call of select returns with a descriptor of the sets that is ready.
  abbrev pub Answers : (Net W) → View W → ℕ → FdSet → FdSet → W → Type 0
  Answers net v n rs ws w =
      (rs' : FdSet) × (ws' : FdSet) × (w' : W) × (net.select n rs ws w ≡ some (rs', ws', w'))
      × ((g : ℕ) × (((rs g && rs' g) || (ws g && ws' g)) ≡ true))
      × Keeps v w w'

  -- The network gives descriptors that are not open and below FD_SETSIZE, while it has
  -- room; connections are made or begun; select waits until a descriptor is ready; each
  -- server ends its file after a number of reads.
  pub record Serves (net : Net W) (v : View W) : Type 0 where
    pub socket :
        (h p : List ℕ) (w : W)
        → 0 < v.room w
        → (fd : ℕ) × (w' : W) × (net.socket h p w ≡ some (fd, w'))
          × (v.opened fd w ≡ false)
          × (v.opened fd w' ≡ true)
          × (fd < fd_setsize)
          × Takes v w w'
    pub nonblock : (fd : ℕ) (w : W) → Keeps v w (net.nonblock fd w)
    pub connect :
        (fd : ℕ) (h : List ℕ) (w : W)
        → ((net.connect fd h w).0 ≢ failed) × Keeps v w (net.connect fd h w).1
    pub select :
        (n fd : ℕ) (rs ws : FdSet) (w : W)
        → fd < n
        → (rs fd || ws fd) ≡ true
        → Answers net v n rs ws w
    pub so_error : (fd : ℕ) (w : W) → Keeps v w (net.so_error fd w).1
    pub read :
        (fd n : ℕ) (w : W)
        → Keeps v w (net.read fd n w).1
          × (is_zero (net.read fd n w).0 ≡ false → v.pending (net.read fd n w).1 < v.pending w)
    pub writen : (fd : ℕ) (t : List ℕ) (w : W) → Keeps v w (net.writen fd t w)
    pub close :
        (fd : ℕ) (w : W)
        → ((g : ℕ) → (g == fd) ≡ false → v.opened g w ≡ true → v.opened g (net.close fd w) ≡ true)
          × (v.pending (net.close fd w) ≤ v.pending w)
          × (v.room w ≤ v.room (net.close fd w))
    pub tcp_connect :
        (h p : List ℕ) (w : W)
        → (fd : ℕ) × (w' : W) × (net.tcp_connect h p w ≡ some (fd, w'))
          × (v.pending w' ≤ v.pending w)
          × (v.room w ≤ v.room w' + 1)

  -- A descriptor of a connection: in the range that select looks at, open, and one that a set holds.
  abbrev pub IsUsed : View W → Web W → ℕ → Type 0
  IsUsed v s g = (above g s.maxfd ≡ false) × (v.opened g s.world ≡ true) × (g < fd_setsize)

  -- The counters count the files by their flags; the sets hold the descriptors of the connections,
  -- `wset` those of the connections that are not there yet; each connection has its own descriptor;
  -- the commands fit into their lines; and there are sockets for the files without a connection.
  pub record IsSound (v : View W) (s : Web W) : Type 0 where
    pub to_connect : s.nlefttoconn ≡ total unconnected s.files
    pub connections : s.nconn ≡ total opening s.files
    pub to_read : s.nlefttoread ≡ total unread s.files
    pub readers : (g : ℕ) → s.rset g ≡ ltb 0 (total (holds g) s.files)
    pub writers : (g : ℕ) → s.wset g ≡ ltb 0 (total (dials g) s.files)
    pub alone : (g : ℕ) → total (holds g) s.files ≤ 1
    pub used : (g : ℕ) → 0 < total (holds g) s.files → IsUsed v s g
    pub short : total too_long s.files ≡ 0
    pub enough : total unconnected s.files ≤ v.room s.world

  -- The steps that the program has before it.
  abbrev pub rank : View W → Web W → ℕ
  rank v s = v.pending s.world + total steps s.files

  abbrev pub names : Web W → List (List ℕ)
  names s = map (λ x. x.f_name) s.files
