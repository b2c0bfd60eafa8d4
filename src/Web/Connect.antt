-- ===== src/Web/Connect.antt =====
-- `write_get_cmd` and `start_connect` of c_code/unp/web/web.c, and the loop of `main` that opens
-- connections.
use somenote.Common.{
  ℕ, zero, suc, ◌+◌, ◌-◌, Bool, true, false, ◌&&◌, Option, none, some, List, [], ◌∷◌, ◌++◌, ◌==◌,
  ltb, if◌then◌else◌, length, take,
}
use somenote.Libc.Int.{ℤ, pos, negsuc}
use somenote.Libc.Text.{codes}
use somenote.Libc.Scan.{show_int}
use somenote.Libc.Effect.{quit, out_of_fuel, Cmd, pure, ◌>>=◌, ◌>>◌, get, modify, need, fit}
use somenote.Web.State.{
  maxline, serv, fd_setsize, f_connecting, f_reading, File, is_none, fd_set, Connected, at_once,
  in_progress, failed, Net, Web, raise, on_world, ask_world, or_quit, print, file_at, put_file,
}

-- GET_CMD
unfoldable pub get_cmd : List ℕ → List ℕ
get_cmd name = codes "GET " ++ name ++ codes " HTTP/1.0" ++ 13 ∷ 10 ∷ 13 ∷ 10 ∷ []

-- The bytes that `writen(fd, line, n)` finds behind `n = snprintf(line, MAXLINE, GET_CMD, name)`:
-- what does not fit is cut off, with a null byte behind it, but `n` is the whole length.
unfoldable pub line_bytes : List ℕ → Option (List ℕ)
line_bytes t =
    if ltb (length t) maxline
    then some t
    else if length t == maxline
    then some (take (maxline - 1) t ++ 0 ∷ [])
    else none

-- `for(i = 0; i < nfiles; i++) if(file[i].f_flags == 0) break;`
unfoldable pub first_left : List File → ℕ
first_left [] = 0
first_left (x ∷ xs) = if is_none x.f_flags then 0 else suc (first_left xs)

-- `nconn < maxnconn`
unfoldable pub below_limit : ℕ → ℤ → Bool
below_limit n (pos m) = ltb n m
below_limit n (negsuc m) = false

-- What the program prints for the command `t`.
pub wrote : List ℕ → List ℕ → List ℕ
wrote t name =
    codes "wrote " ++ show_int (pos (length t)) ++ codes " bytes for " ++ name ++ 32 ∷ 10 ∷ []

module _ {W : Type 0} where
  -- FD_SET, which writes past the set for a descriptor of FD_SETSIZE or more
  unfoldable pub set_rset : ℕ → Cmd (Web W) (Unit {0})
  set_rset fd = do fit (ltb fd fd_setsize); modify λ s. record s { rset = fd_set fd s.rset }

  unfoldable pub set_wset : ℕ → Cmd (Web W) (Unit {0})
  set_wset fd = do fit (ltb fd fd_setsize); modify λ s. record s { wset = fd_set fd s.wset }

  unfoldable pub raise_maxfd : ℕ → Cmd (Web W) (Unit {0})
  raise_maxfd fd = modify λ s. record s { maxfd = raise fd s.maxfd }

module _ {W : Type 0} ⦃net : Net W⦄ where
  unfoldable pub write_get_cmd : ℕ → Cmd (Web W) (Unit {0})
  write_get_cmd i = do
    x ← file_at i
    let t = get_cmd x.f_name
    line ← need (line_bytes t)
    on_world (net.writen x.f_fd line)
    print (wrote t x.f_name)
    put_file i (record x { f_flags = f_reading })
    set_rset x.f_fd
    raise_maxfd x.f_fd

  -- The three ways of `connect`.
  unfoldable pub connected : ℕ → ℕ → Connected → Cmd (Web W) (Unit {0})
  connected i fd at_once = write_get_cmd i
  connected i fd in_progress = do
    x ← file_at i
    put_file i (record x { f_flags = f_connecting })
    set_rset fd
    set_wset fd
    raise_maxfd fd
  connected i fd failed = λ _. quit (codes "nonblocking connect error")

  unfoldable pub start_connect : ℕ → Cmd (Web W) (Unit {0})
  start_connect i = do
    x ← file_at i
    s ← get
    fd ← or_quit (net.socket x.f_host serv s.world)
    put_file i (record x { f_fd = fd })
    print (codes "start_connect for " ++ x.f_name ++ codes " ,fd " ++ show_int (pos fd) ++ 10 ∷ [])
    on_world (net.nonblock fd)
    c ← ask_world (net.connect fd x.f_host)
    connected i fd c

  -- One round of the loop.
  unfoldable pub connect_next : Cmd (Web W) (Unit {0})
  connect_next = do
    s ← get
    let i = first_left s.files
    elim (i == length s.files) [
      | true ↦ λ _.
          quit
            (codes "nlefttoconn = " ++ show_int (pos s.nlefttoconn) ++ codes " but nothing found ")
      | false ↦ start_connect i
    ]
    modify λ s'. record s' { nconn = s'.nconn + 1; nlefttoconn = s'.nlefttoconn - 1 }

  -- `while(nconn < maxnconn && nlefttoconn > 0)`
  unfoldable pub connect_loop : ℕ → ℤ → Cmd (Web W) (Unit {0})
  connect_loop zero m = λ _. out_of_fuel
  connect_loop (suc f) m = do
    s ← get
    elim (below_limit s.nconn m && ltb 0 s.nlefttoconn) [
      | true ↦ do connect_next; connect_loop f m
      | false ↦ pure tt
    ]
