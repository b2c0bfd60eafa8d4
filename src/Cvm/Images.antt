-- ===== src/Cvm/Images.antt =====
-- The commands of c_code/cvm/cvm.c on snapshots, compact disks and templates, and the printing of
-- a listing.
pub mod Listing
use somenote.Common.{
  ℕ, zero, suc, ◌+◌, ◌-◌, Bool, true, false, not, Option, none, some, List, [], ◌∷◌, ◌++◌, ◌==◌,
  if◌then◌else◌, length, take, drop, get_or,
}
use somenote.Libc.Int.{ℤ, pos, negsuc}
use somenote.Libc.Text.{codes, text}
use somenote.Libc.Scan.{show_int, scan_int, skip_space, word, strstr}
use somenote.Libc.Effect.{Run, ok, out_of_fuel, Cmd, pure, ◌>>=◌, ◌>>◌, get, modify, need, fit}
use somenote.Cvm.State.{
  vmdir, isodir, sysdir, logdir, datasysdir, namelen, Host, Vm, fits, set_file, set_cmd, set_name,
  print, print_int, answer, read_int, read_long, read_word, read_name,
}
use somenote.Cvm.Host.{xmlog, usleep, log_and_run, getresult, monitor, now, is_some}
use somenote.Cvm.Rate.{rate}
use somenote.Cvm.Machine.{quiet, image, base_image, vmadd}
use somenote.Cvm.Template.{os_same}
use somenote.Cvm.Power.{line_of, each, rebuild}

-- What stands behind the first newline: `p = strchr(p, 10); ++p;`
pub next_line : List ℕ → Option (List ℕ)
next_line [] = none
next_line (c ∷ s) = if c == 10 then some s else next_line s

-- `sscanf(p, "%s", name)`: what is read, if there is a word
pub first_word : List ℕ → List ℕ
first_word p = (word (skip_space p)).0

-- `sscanf(p, "%*d%s", name)`
second_word : List ℕ → List ℕ
second_word p = let (z, r) = scan_int p in elim z [ none ↦ [] | some n ↦ first_word r ]

abbrev pub end_mark : List ℕ
end_mark = line_of (codes "-1")

-- `.iso`, and what the monitor says of a drive without a disk
abbrev dot_iso : List ℕ
dot_iso = codes ".iso"

-- The name before an index, back to a slash: `while(*(p-1) != '/') --p;`
back_to_slash : List ℕ → ℕ → Option ℕ
back_to_slash s zero = none
back_to_slash s (suc i) = elim (get_or s i 0 == b'/') [
  | true ↦ some (suc i)
  | false ↦ back_to_slash s i
]

module _ {W : Type 0} where
  -- A word, if there is one, into `name`.
  pub take_name : List ℕ → Cmd (Vm W) (Unit {0})
  take_name w = if length w == 0 then pure tt else set_name w

  -- A name of each line, up to the end of the text.
  pub names_loop : ℕ → (List ℕ → List ℕ) → List ℕ → Cmd (Vm W) (Unit {0})
  names_loop zero pick p = λ _. out_of_fuel
  names_loop (suc f) pick p = elim p [
    | [] ↦ pure tt
    | c ∷ r ↦ do
      take_name (pick (c ∷ r))
      s ← get
      print (line_of s.name)
      p' ← need (next_line (c ∷ r))
      names_loop f pick p'
  ]

module _ {W : Type 0} ⦃host : Host W⦄ where
  -- The command's lines, and -1 behind them.
  pub print_listing : ℕ → List ℕ → Cmd (Vm W) (Unit {0})
  print_listing f command = do
    set_cmd command
    getresult true
    s ← get
    (if length s.result == 0 then pure tt else names_loop f first_word s.result)
    print end_mark

  pub snapshot_list : ℕ → Cmd (Vm W) (Unit {0})
  snapshot_list f = do
    id ← read_int none
    set_cmd (codes "qemu-img snapshot -l " ++ image id)
    s ← get
    xmlog s.cmd
    getresult true
    s₁ ← get
    (if length s₁.result == 0 then pure tt else do
      p ← need (next_line s₁.result)
      p' ← need (next_line p)
      names_loop f second_word p')
    print end_mark

  -- A command of the monitor on a snapshot that is named.
  snapshot_command : List ℕ → Cmd (Vm W) (Unit {0})
  snapshot_command verb = do
    id ← read_int none
    name ← read_name
    set_cmd (verb ++ codes " " ++ name)
    s ← get
    done ← monitor id s.cmd
    answer done

  pub snapshot_create : Cmd (Vm W) (Unit {0})
  snapshot_create = snapshot_command (codes "savevm")

  pub snapshot_del : Cmd (Vm W) (Unit {0})
  snapshot_del = snapshot_command (codes "delvm")

  pub snapshot_apply : Cmd (Vm W) (Unit {0})
  snapshot_apply = snapshot_command (codes "loadvm")

  unfoldable pub cd_list : ℕ → Cmd (Vm W) (Unit {0})
  cd_list f = print_listing f (codes "ls " ++ isodir)

  -- The name of the disk: it ends before `.iso`, where a null byte is put.
  print_disk : List ℕ → Cmd (Vm W) (Unit {0})
  print_disk s = do
    i ← need (strstr s dot_iso)
    j ← need (back_to_slash s i)
    print (line_of (drop j (take i s)))

  pub cd_mounted : Cmd (Vm W) (Unit {0})
  cd_mounted = do
    id ← read_int none
    _ ← monitor id (codes "info block")
    s ← get
    if is_some (strstr s.result (codes "ide1-cd0: [not inserted]"))
        then print (line_of (codes "null"))
        else print_disk s.result

  pub cd_mount : Cmd (Vm W) (Unit {0})
  cd_mount = do
    id ← read_int none
    name ← read_name
    set_cmd (codes "change ide1-cd0 " ++ isodir ++ codes "/" ++ name)
    s ← get
    done ← monitor id s.cmd
    answer done

  pub cd_unmount : Cmd (Vm W) (Unit {0})
  cd_unmount = do id ← read_int none; done ← monitor id (codes "eject -f ide1-cd0"); answer done

  pub os_list : ℕ → Cmd (Vm W) (Unit {0})
  os_list f = print_listing f (codes "ls " ++ sysdir)

  -- The size that `qemu-img info` tells, and the time, by which the transfer can be asked for.
  pub os_import : Cmd (Vm W) (Unit {0})
  os_import = do
    name ← read_name
    id ← read_int none
    t ← now
    set_file (sysdir ++ codes "/" ++ name)
    s ← get
    set_cmd (codes "qemu-img info " ++ s.file)
    getresult true
    s₁ ← get
    i ← need (strstr s₁.result (codes "virtual size: "))
    disk ← need (scan_int (drop (i + 14) s₁.result)).0
    set_cmd (
        codes "rsync -avP "
        ++ s.file
        ++ codes " "
        ++ base_image id
        ++ codes " > "
        ++ logdir
        ++ codes "/"
        ++ show_int (pos t)
        ++ codes " &")
    log_and_run
    print_int disk
    print_int (pos t)

  -- `rate(t, 0)` of a time that is read
  pub query : Cmd (Vm W) (Unit {0})
  query = do t ← read_long; r ← rate (show_int t); print_int r

  pub os_query : Cmd (Vm W) (Unit {0})
  os_query = query

  -- The overlay is made twice, with a pause.
  pub rebuild_twice : ℤ → ℤ → Cmd (Vm W) (Unit {0})
  rebuild_twice base id = do rebuild base id; usleep 100000; rebuild base id

  pub os_rebuild : ℕ → Cmd (Vm W) (Unit {0})
  os_rebuild f = do base ← read_int none; each f (rebuild_twice base) none; answer true

  pub os_upload : ℕ → Cmd (Vm W) (Unit {0})
  os_upload f = do
    id ← read_int none
    name ← read_word 1024 none
    ip ← read_word 32 none
    free ← os_same f name ip
    if not free then print (codes "error") else do
      t ← now
      set_cmd (
          codes "rsync -avP "
          ++ base_image id
          ++ codes " root@"
          ++ ip
          ++ codes ":"
          ++ datasysdir
          ++ codes "/"
          ++ name
          ++ codes " > "
          ++ logdir
          ++ codes "/"
          ++ show_int (pos t)
          ++ codes " &")
      log_and_run
      print_int (pos t)
