-- ===== src/Web/Main.antt =====
-- `home_page` and `main` of c_code/unp/web/web.c.
use somenote.Common.{
  ℕ, zero, suc, ◌-◌, true, false, ◌||◌, none, some, List, [], ◌∷◌, ◌++◌, ltb, if◌then◌else◌, length,
  take, drop, map, get_elem?,
}
use somenote.Libc.Int.{ℤ, pos, negsuc, is_zero}
use somenote.Libc.Text.{codes}
use somenote.Libc.Decimal.{atol}
use somenote.Libc.Scan.{show_int}
use somenote.Libc.Effect.{ok, blocked, out_of_fuel, Cmd, pure, ◌>>=◌, ◌>>◌, get, modify, need}
use somenote.Web.State.{
  maxfiles, maxline, serv, Flags, f_none, f_connecting, f_reading, f_done, File, FdSet, fd_zero,
  fd_clr, Net, Web, count_of, on_world, ask_world, or_quit, print, file_at, put_file,
}
use somenote.Web.Connect.{get_cmd, line_bytes, write_get_cmd, connect_loop}

unfoldable pub new_file : List ℕ → List ℕ → File
new_file host name = record { f_name = name; f_host = host; f_fd = 0; f_flags = f_none }

pub home_line : ℤ → List ℕ
home_line n = codes "read " ++ show_int n ++ codes " bytes of home page" ++ 10 ∷ []

module _ {W : Type 0} where
  -- The variables behind the first loop of `main`, with the values that they have at the start of a
  -- program.
  unfoldable pub begin : List ℕ → List (List ℕ) → Cmd (Web W) (Unit {0})
  begin host names = modify λ s. record s { files = map (new_file host) (take maxfiles names) }

  unfoldable pub reset : Cmd (Web W) (Unit {0})
  reset = modify λ s. record s {
    rset = fd_zero;
    wset = fd_zero;
    maxfd = negsuc 0;
    nlefttoread = length s.files;
    nlefttoconn = length s.files;
    nconn = 0;
  }

module _ {W : Type 0} ⦃net : Net W⦄ where
  -- A call of `select`.
  unfoldable pub wait : Cmd (Web W) (FdSet × FdSet)
  wait s = elim (net.select (count_of s.maxfd) s.rset s.wset s.world) [
    | none ↦ blocked
    | some r ↦ ok (r.0, r.1) (record s { world = r.2 })
  ]

  -- A connection is there, or has failed: then the program says so and goes on all the same.
  unfoldable pub finish_connect : ℕ → File → Cmd (Web W) (Unit {0})
  finish_connect i x = do
    bad ← ask_world (net.so_error x.f_fd)
    modify λ s. record s {
      errors =
          if bad
          then (codes "nonblocking connect failed for " ++ x.f_name) ∷ s.errors
          else s.errors;
    }
    print (codes "connection established for " ++ x.f_name ++ 10 ∷ [])
    modify λ s. record s { wset = fd_clr x.f_fd s.wset }
    write_get_cmd i

  unfoldable pub at_end_of_file : ℕ → File → Cmd (Web W) (Unit {0})
  at_end_of_file i x = do
    print (codes "end-of-file on " ++ x.f_name ++ 10 ∷ [])
    on_world (net.close x.f_fd)
    put_file i (record x { f_flags = f_done })
    modify λ s. record s {
      rset = fd_clr x.f_fd s.rset;
      nconn = s.nconn - 1;
      nlefttoread = s.nlefttoread - 1;
    }

  unfoldable pub read_some : ℕ → File → Cmd (Web W) (Unit {0})
  read_some i x = do
    n ← ask_world (net.read x.f_fd maxline)
    elim (is_zero n) [
      | true ↦ at_end_of_file i x
      | false ↦ print (codes "read " ++ show_int n ++ codes " bytes from " ++ x.f_name ++ 10 ∷ [])
    ]

  -- The body of the loop over the files, for the flags of one.
  unfoldable pub by_flags : FdSet → FdSet → ℕ → File → Flags → Cmd (Web W) (Unit {0})
  by_flags rs ws i x f_none = pure tt
  by_flags rs ws i x f_done = pure tt
  by_flags rs ws i x f_connecting = elim (rs x.f_fd || ws x.f_fd) [
    | true ↦ finish_connect i x
    | false ↦ pure tt
  ]
  by_flags rs ws i x f_reading = elim (rs x.f_fd) [ true ↦ read_some i x | false ↦ pure tt ]

  unfoldable pub visit : FdSet → FdSet → ℕ → Cmd (Web W) (Unit {0})
  visit rs ws i = do x ← file_at i; by_flags rs ws i x x.f_flags

  -- `for(i = 0; i < nfiles; i++)`, with the number of files left
  unfoldable pub scan : FdSet → FdSet → ℕ → ℕ → Cmd (Web W) (Unit {0})
  scan rs ws i zero = pure tt
  scan rs ws i (suc k) = do visit rs ws i; scan rs ws (suc i) k

  -- `while(nlefttoread > 0)`
  unfoldable pub main_loop : ℕ → ℤ → Cmd (Web W) (Unit {0})
  main_loop zero m = λ _. out_of_fuel
  main_loop (suc f) m = do
    s ← get
    elim (ltb 0 s.nlefttoread) [
      | false ↦ pure tt
      | true ↦ do
        connect_loop (suc f) m
        ready ← wait
        scan ready.0 ready.1 0 (length s.files)
        main_loop f m
    ]

  -- The loop of `home_page`.
  unfoldable pub home_loop : ℕ → ℕ → Cmd (Web W) (Unit {0})
  home_loop zero fd = λ _. out_of_fuel
  home_loop (suc f) fd = do
    n ← ask_world (net.read fd maxline)
    elim (is_zero n) [ true ↦ pure tt | false ↦ do print (home_line n); home_loop f fd ]

  unfoldable pub home_page : ℕ → List ℕ → List ℕ → Cmd (Web W) (Unit {0})
  home_page f host fname = do
    s ← get
    fd ← or_quit (net.tcp_connect host serv s.world)
    line ← need (line_bytes (get_cmd fname))
    on_world (net.writen fd line)
    home_loop f fd
    print (codes "end-of-file on home page " ++ 10 ∷ [])
    on_world (net.close fd)

  -- The loops run on `f` rounds. The number is taken to be that of an int. A name that is missing
  -- from the arguments is a null pointer.
  unfoldable pub main : ℕ → List (List ℕ) → Cmd (Web W) (Unit {0})
  main f argv = do
    number ← need (get_elem? argv 1)
    host ← need (get_elem? argv 2)
    page ← need (get_elem? argv 3)
    begin host (drop 4 argv)
    s ← get
    print (codes "nfiles = " ++ show_int (pos (length s.files)) ++ 10 ∷ [])
    home_page f host page
    reset
    main_loop f (atol number)
