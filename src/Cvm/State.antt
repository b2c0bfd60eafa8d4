-- ===== src/Cvm/State.antt =====
-- The buffers and paths of c_code/cvm/cvm.c, the machine that it runs on, and its calls of the C
-- library.
pub mod Keeps
use Prim.Native.String.{String}
use somenote.Common.{
  ℕ, suc, ◌+◌, ◌-◌, ◌<◌, Bool, true, false, Option, none, some, List, [], ◌∷◌, ◌++◌, ◌==◌, leb, ltb,
  if◌then◌else◌, length, take, drop,
}
use somenote.Libc.Int.{ℤ, pos, negsuc}
use somenote.Libc.Text.{text, codes}
use somenote.Libc.Scan.{scan_int, scan_long, skip_space, word, show_int}
use somenote.Libc.Effect.{
  Run, ok, overflow, undefined, Cmd, pure, ◌>>=◌, ◌>>◌, get, modify, need, fit,
}

abbrev pub log : List ℕ
log = codes "/var/cos/cvm/log/cvm.log"

abbrev pub logdir : List ℕ
logdir = codes "/var/cos/cvm/log"

abbrev pub dir : List ℕ
dir = codes "/var/cos/cvm"

abbrev pub vmdir : List ℕ
vmdir = codes "/var/cos/cvm/vm"

abbrev pub diskdir : List ℕ
diskdir = codes "/var/cos/cvm/disk"

abbrev pub cldir : List ℕ
cldir = codes "/var/cos/cvm/vm/cl"

abbrev pub qmdir : List ℕ
qmdir = codes "/var/cos/cvm/vm/qm"

abbrev pub isodir : List ℕ
isodir = codes "/var/cos/cvm/iso"

abbrev pub sysdir : List ℕ
sysdir = codes "/var/cos/cvm/sys"

abbrev pub dataisodir : List ℕ
dataisodir = codes "/var/cos/cvm/data/iso"

abbrev pub datasysdir : List ℕ
datasysdir = codes "/var/cos/cvm/data/sys"

abbrev pub backupdir : List ℕ
backupdir = codes "/var/cos/cvm/data/backup"

abbrev pub ifup : List ℕ
ifup = codes "/var/cos/cvm/qemu-ifup"

abbrev pub ifdown : List ℕ
ifdown = codes "/var/cos/cvm/qemu-ifdown"

abbrev pub fake : List ℕ
fake = codes "/var/cos/cvm/sys/.fake"

abbrev pub virtio : List ℕ
virtio = codes "/var/cos/cvm/iso/virtio_tiny.iso"

abbrev pub vnctoken : List ℕ
vnctoken = codes "/var/cos/cvm/vnc_tokens"

abbrev pub filelen : ℕ
filelen = 1024

abbrev pub namelen : ℕ
namelen = 1024

abbrev pub cmdlen : ℕ
cmdlen = 4096

abbrev pub resultlen : ℕ
resultlen = 65536

-- What the program runs on. `shell` is `system` with the standard output led into a pipe, which
-- holds `pipe_size` bytes; `dial` and `tell` are `connect` and `write` to the agent at port 50000;
-- `hear` and `say` are `read` and `write` at the socket of a machine's monitor, and `join` is the
-- `bind` and `connect` before them, with whether the second succeeds.
pub record Host (W : Type 0) : Type 0 where
  pub system : List ℕ → W → W
  pub shell : List ℕ → W → List ℕ × W
  pub pipe_size : ℕ
  pub exists : List ℕ → W → Bool
  pub size : List ℕ → W → Option ℕ
  pub read_file : List ℕ → W → Option (List ℕ)
  pub append_file : List ℕ → List ℕ → W → Option W
  pub clock : W → ℕ
  pub ctime : W → List ℕ
  pub sleep : ℕ → W → W
  pub dial : W → Bool × W
  pub tell : List ℕ → W → Bool × W
  pub join : List ℕ → W → Bool × W
  pub hear : W → List ℕ × W
  pub say : List ℕ → W → W
  -- (int)(a * 0.9 + b * 0.1)
  pub nine_to_one : ℤ → ℤ → ℤ

-- The machine, the rest of the input, the output so far, and the five buffers of the program.
pub record Vm (W : Type 0) : Type 0 where
  pub world : W
  pub input : List ℕ
  pub output : List ℕ
  pub file : List ℕ
  pub name : List ℕ
  pub cmd : List ℕ
  pub result : List ℕ
  pub result2 : List ℕ

-- A text with its null byte fits into a buffer of `n` bytes.
abbrev pub fits : ℕ → List ℕ → Bool
fits n s = ltb (length s) n

-- An integer is a natural number.
abbrev pub is_num : ℤ → ℕ → Bool
is_num (pos n) k = n == k
is_num (negsuc n) k = false

-- `id + k` of an `int`, where it does not overflow
abbrev pub add_int : ℤ → ℕ → ℤ
add_int (pos n) k = pos (n + k)
add_int (negsuc n) k = if ltb n k then pos (k - suc n) else negsuc (n - k)

abbrev pub or_old : {A : Type 0} → Option A → Option A → Option A
or_old (some a) old = some a
or_old none old = old

module _ {W : Type 0} where
  abbrev pub on_world : (W → W) → Cmd (Vm W) (Unit {0})
  on_world f = modify λ s. record s { world = f s.world }

  abbrev pub ask_world : {A : Type 0} → (W → A × W) → Cmd (Vm W) A
  ask_world f s = let (a, w) = f s.world in ok a (record s { world = w })

  -- `sprintf` into a buffer
  unfoldable pub set_file : List ℕ → Cmd (Vm W) (Unit {0})
  set_file t = do fit (fits filelen t); modify λ s. record s { file = t }

  unfoldable pub set_name : List ℕ → Cmd (Vm W) (Unit {0})
  set_name t = do fit (fits namelen t); modify λ s. record s { name = t }

  unfoldable pub set_cmd : List ℕ → Cmd (Vm W) (Unit {0})
  set_cmd t = do fit (fits cmdlen t); modify λ s. record s { cmd = t }

  -- `printf`
  unfoldable pub print : List ℕ → Cmd (Vm W) (Unit {0})
  print t = modify λ s. record s { output = s.output ++ t }

  pub print_int : ℤ → Cmd (Vm W) (Unit {0})
  print_int z = print (show_int z ++ 10 ∷ [])

  -- `printf("ok\n")` or `printf("error\n")`
  unfoldable pub answer : Bool → Cmd (Vm W) (Unit {0})
  answer true = print (codes "ok" ++ 10 ∷ [])
  answer false = print (codes "error" ++ 10 ∷ [])

  -- `scanf("%d", &x)`: without a number, `x` keeps the value that it has, if it has one.
  unfoldable pub read_int : Option ℤ → Cmd (Vm W) ℤ
  read_int old s = let (z, r) = scan_int s.input in need (or_old z old) (record s { input = r })

  pub read_long : Cmd (Vm W) ℤ
  read_long s = let (z, r) = scan_long s.input in need z (record s { input = r })

  -- `scanf("%s", x)` into a buffer of `n` bytes: without a word, `x` keeps what it holds.
  unfoldable pub read_word : ℕ → Option (List ℕ) → Cmd (Vm W) (List ℕ)
  read_word n old s =
      let (w, r) = word (skip_space s.input) in
      if length w == 0
      then need old (record s { input = r })
      else if fits n w
      then pure (text w) (record s { input = r })
      else overflow

  -- One conversion of a `scanf` with several: none where it fails, so that those behind it are not made.
  pub try_int : Cmd (Vm W) (Option ℤ)
  try_int s = let (z, r) = scan_int s.input in ok z (record s { input = r })

  pub try_word : ℕ → Cmd (Vm W) (Option (List ℕ))
  try_word n s =
      let (w, r) = word (skip_space s.input) in
      if length w == 0
      then ok none (record s { input = r })
      else if fits n w
      then ok (some (text w)) (record s { input = r })
      else overflow

  -- `scanf("%s", name)`
  pub read_name : Cmd (Vm W) (List ℕ)
  read_name = do
    s ← get
    w ← read_word namelen (some s.name)
    modify λ s'. record s' { name = w }
    pure w
