-- ===== src/Web/State.antt =====
-- The files, the counters and the descriptor sets of c_code/unp/web/web.h, and the network.
use somenote.Common.{
  ℕ, suc, Bool, true, false, ◌&&◌, ◌||◌, not, Option, none, some, List, [], ◌++◌, ◌==◌, ltb,
  if◌then◌else◌, set, get_elem?,
}
use somenote.Libc.Int.{ℤ, pos, negsuc}
use somenote.Libc.Text.{codes}
use somenote.Libc.Effect.{ok, quit, Cmd, need}

abbrev pub maxfiles : ℕ
maxfiles = 20

abbrev pub serv : List ℕ
serv = codes "80"

-- MAXLINE of unp.h, and FD_SETSIZE
abbrev pub maxline : ℕ
maxline = 4096

abbrev pub fd_setsize : ℕ
fd_setsize = 1024

-- `f_flags`: 0, or one of the three flags. The program never joins two of them.
pub data Flags : Type 0 where
  f_none f_connecting f_reading f_done : Flags

pub record File : Type 0 where
  pub f_name : List ℕ
  pub f_host : List ℕ
  pub f_fd : ℕ
  pub f_flags : Flags

-- `flags == 0`
abbrev pub is_none : Flags → Bool
is_none f_none = true
is_none f_connecting = false
is_none f_reading = false
is_none f_done = false

-- A set of descriptors.
abbrev pub FdSet : Type 0
FdSet = ℕ → Bool

unfoldable pub fd_zero : FdSet
fd_zero g = false

unfoldable pub fd_set : ℕ → FdSet → FdSet
fd_set fd s g = g == fd || s g

unfoldable pub fd_clr : ℕ → FdSet → FdSet
fd_clr fd s g = not (g == fd) && s g

-- What a call of `connect` that does not wait may do.
pub data Connected : Type 0 where
  at_once in_progress failed : Connected

-- The network. `socket` is `Host_serv` and `Socket` for a host and a service, which end the process
-- where they fail; `select` does not return where it waits for ever, and does not fill its sets
-- where it fails; `so_error` says that `getsockopt` fails or finds an error.
pub record Net (W : Type 0) : Type 0 where
  pub socket : List ℕ → List ℕ → W → Option (ℕ × W)
  pub nonblock : ℕ → W → W
  pub connect : ℕ → List ℕ → W → Connected × W
  pub select : ℕ → FdSet → FdSet → W → Option (FdSet × FdSet × W)
  pub so_error : ℕ → W → Bool × W
  pub read : ℕ → ℕ → W → ℤ × W
  pub writen : ℕ → List ℕ → W → W
  pub close : ℕ → W → W
  pub tcp_connect : List ℕ → List ℕ → W → Option (ℕ × W)

-- The network, what is printed, the messages of `err_ret`, and the variables of web.h. `files` is
-- the first `nfiles` of the array.
pub record Web (W : Type 0) : Type 0 where
  pub world : W
  pub output : List ℕ
  pub errors : List (List ℕ)
  pub files : List File
  pub nconn : ℕ
  pub nlefttoconn : ℕ
  pub nlefttoread : ℕ
  pub maxfd : ℤ
  pub rset : FdSet
  pub wset : FdSet

-- `fd > maxfd`
unfoldable pub above : ℕ → ℤ → Bool
above fd (pos m) = ltb m fd
above fd (negsuc m) = true

-- `if(fd > maxfd) maxfd = fd;`
unfoldable pub raise : ℕ → ℤ → ℤ
raise fd m = if above fd m then pos fd else m

-- `maxfd + 1`, where `maxfd` is -1 or more
unfoldable pub count_of : ℤ → ℕ
count_of (pos m) = suc m
count_of (negsuc m) = 0

module _ {W : Type 0} where
  abbrev pub on_world : (W → W) → Cmd (Web W) (Unit {0})
  on_world f s = ok tt (record s { world = f s.world })

  abbrev pub ask_world : {A : Type 0} → (W → A × W) → Cmd (Web W) A
  ask_world f s = let r = f s.world in ok r.0 (record s { world = r.1 })

  -- A call that ends the process where it fails, with a message of the network's library.
  abbrev pub or_quit : {A : Type 0} → Option (A × W) → Cmd (Web W) A
  or_quit none s = quit []
  or_quit (some r) s = ok r.0 (record s { world = r.1 })

  -- `printf`
  abbrev pub print : List ℕ → Cmd (Web W) (Unit {0})
  print t s = ok tt (record s { output = s.output ++ t })

  -- `file[i]`
  abbrev pub file_at : ℕ → Cmd (Web W) File
  file_at i s = need (get_elem? s.files i) s

  abbrev pub put_file : ℕ → File → Cmd (Web W) (Unit {0})
  put_file i x s = ok tt (record s { files = set s.files i x })
