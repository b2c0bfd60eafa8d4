-- ===== src/Web/Tests.antt =====
-- The theorems on c_code/unp/web/web.c at a network.
use somenote.Common.{
  ℕ, zero, suc, ◌-◌, ◌<◌, ◌≤◌, ◌≡◌, refl, Bool, true, false, Option, none, some, List, [], ◌∷◌, ltb,
  ◌&&◌, ◌||◌, length, if◌then◌else◌, arith, map,
}
use somenote.Libc.Int.{ℤ, pos, negsuc, is_zero}
use somenote.Libc.Text.{codes}
use somenote.Libc.Decimal.{decimal}
use somenote.Libc.Effect.{Run, ok}
use somenote.Libc.Returns.{Returns}
use somenote.Web.State.{in_progress, failed, fd_zero, Net, Web}
use somenote.Web.Connect.{
  get_cmd, set_rset, set_wset, raise_maxfd, connect_loop, connect_next, start_connect, connected,
  first_left, below_limit,
}
use somenote.Web.Main.{new_file, reset, scan, main}
use somenote.Web.Sound.{View, Keeps, Takes, Serves, IsSound, rank, names}
use somenote.Web.Sound.Opens.{IsFilled, connect_loop-fills}
use somenote.Web.Sound.Scans.{scan-IsSound}
use somenote.Web.Gets.{FitLines, IsFinished, reset-IsSound, main-IsFinished}

-- A network that gives its descriptors in their order, and some reads.
record Sim : Type 0 where
  next : ℕ
  left : ℕ

abbrev dealt : Sim → Option (ℕ × Sim)
dealt w = if ltb w.next 1000 then some (w.next, record w { next = suc w.next }) else none

abbrev taken : ℕ → Sim → ℤ × Sim
taken zero w = (pos 0, w)
taken (suc n) w = (pos 1, record w { left = n })

abbrev sim : Net Sim
sim = record {
  socket = λ h p w. dealt w;
  nonblock = λ fd w. w;
  connect = λ fd h w. (in_progress, w);
  select = λ n rs ws w. some (rs, ws, w);
  so_error = λ fd w. (false, w);
  read = λ fd n w. taken w.left w;
  writen = λ fd t w. w;
  close = λ fd w. w;
  tcp_connect = λ h p w. some (w.next, record w { next = suc w.next });
}

abbrev view : View Sim
view = record { opened = λ g w. ltb g w.next; pending = λ w. w.left; room = λ w. 1000 - w.next }

all_ready : (a b : Bool) → (a || b) ≡ true → ((a && a) || (b && b)) ≡ true
all_ready true b h = refl
all_ready false true h = refl
all_ready false false h = absurd cc

Untouched : ℕ → Sim → Sim → Type 0
Untouched g w w' = ltb g w.next ≡ true → ltb g w'.next ≡ true

taken-Keeps :
    (n : ℕ) (w : Sim)
    → w.left ≡ n
    → Keeps view w (taken n w).1 × (is_zero (taken n w).0 ≡ false → (taken n w).1.left < w.left)
taken-Keeps zero w e = (((λ g z. z), omega arith, omega arith), λ k. absurd cc)
taken-Keeps (suc n) w e = (((λ g z. z), omega arith, omega arith), λ k. omega arith)

dealt-Takes :
    (w : Sim)
    → 0 < 1000 - w.next
    → (fd : ℕ) × (w' : Sim) × (dealt w ≡ some (fd, w'))
      × (ltb fd w.next ≡ false)
      × (ltb fd w'.next ≡ true)
      × (fd < 1024)
      × Takes view w w'
dealt-Takes w r = (
  w.next,
  record w { next = suc w.next },
  rw (has_room w.next r) refl,
  itself w.next,
  next w.next,
  omega arith,
  ((λ g z. later g w.next z), omega arith, omega arith),
)
  where
    has_room : (n : ℕ) → 0 < 1000 - n → ltb n 1000 ≡ true
    has_room n h = ground arith

    itself : (n : ℕ) → ltb n n ≡ false
    itself n = ground arith

    next : (n : ℕ) → ltb n (suc n) ≡ true
    next n = ground arith

    later : (g n : ℕ) → ltb g n ≡ true → ltb g (suc n) ≡ true
    later g n h = ground arith

serves : Serves sim view
serves = record {
  socket = λ h p w r. dealt-Takes w r;
  nonblock = λ fd w. ((λ g z. z), omega arith, omega arith);
  connect = λ fd h w. ((λ e. not_failed e), ((λ g z. z), omega arith, omega arith));
  select = λ n fd rs ws w r e.
      (rs, ws, w, refl, (fd, all_ready (rs fd) (ws fd) e), ((λ g z. z), omega arith, omega arith));
  so_error = λ fd w. ((λ g z. z), omega arith, omega arith);
  read = λ fd n w. taken-Keeps w.left w refl;
  writen = λ fd t w. ((λ g z. z), omega arith, omega arith);
  close = λ fd w. ((λ g k z. z), omega arith, omega arith);
  tcp_connect = λ h p w. (w.next, record w { next = suc w.next }, refl, omega arith, omega arith);
}
  where
    not_failed : in_progress ≡ failed → ⊥
    not_failed e = cc

abbrev host : List ℕ
host = codes "www.example.org"

abbrev three_names : List (List ℕ)
three_names = codes "/a" ∷ codes "/b" ∷ codes "/c" ∷ []

abbrev start : Web Sim
start = record {
  world = record { next = 3; left = 5 };
  output = [];
  errors = [];
  files = map (new_file host) three_names;
  nconn = 0;
  nlefttoconn = 3;
  nlefttoread = 3;
  maxfd = negsuc 0;
  rset = fd_zero;
  wset = fd_zero;
}

three-FitLines : FitLines three_names
unfolding get_cmd
three-FitLines = (omega arith, (omega arith, (omega arith, tt)))

start-IsSound : IsSound view start
unfolding reset
start-IsSound = (reset-IsSound view host three_names start three-FitLines refl (omega arith)).0

main-IsFinished_example :
    Returns
      (λ _ s'. IsFinished s' × (names s' ≡ three_names))
      (main ⦃net = sim⦄ 100 (codes "web" ∷ decimal 2 ∷ host ∷ codes "/" ∷ three_names) start)
unfolding get_cmd
main-IsFinished_example =
    main-IsFinished ⦃net = sim⦄ view serves 100 1 (codes "web") host (codes "/") three_names start
      (omega arith) (omega arith, three-FitLines) (omega arith) (omega arith)

connect_loop-fills_example :
    Returns
      (λ _ s'. IsFilled ⦃net = sim⦄ view serves 2 start s')
      (connect_loop ⦃net = sim⦄ 4 (pos 2) start)
connect_loop-fills_example =
    connect_loop-fills ⦃net = sim⦄ view serves 4 2 start start-IsSound (omega arith)

-- The state behind a call that returns.
abbrev behind : Run (Web Sim) (Unit {0}) → Web Sim
behind (ok a s) = s
behind Run.overflow = start
behind Run.undefined = start
behind Run.blocked = start
behind (Run.quit t) = start
behind Run.out_of_fuel = start

abbrev dialling : Web Sim
dialling = behind (connect_loop ⦃net = sim⦄ 4 (pos 2) start)

dialling-IsSound : IsSound view dialling
unfolding connect_loop connect_next start_connect connected first_left below_limit new_file set_rset
    set_wset raise_maxfd
dialling-IsSound = connect_loop-fills_example.0

scan-IsSound_example :
    Returns
      (λ _ s'.
        IsSound view s'
        × (names s' ≡ names dialling)
        × (s'.nconn ≤ dialling.nconn)
        × (rank view s' ≤ rank view dialling))
      (scan ⦃net = sim⦄ dialling.rset dialling.wset 0 (length dialling.files) dialling)
scan-IsSound_example =
    scan-IsSound ⦃net = sim⦄ view serves dialling.rset dialling.wset dialling dialling-IsSound
