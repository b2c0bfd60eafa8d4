-- ===== src/Cvm/Disk.antt =====
-- The commands of c_code/cvm/cvm.c on disks: `online`, `disk` and `diskk`.
use somenote.Common.{
  ℕ, zero, suc, true, false, ◌&&◌, Option, none, List, [], ◌∷◌, ◌++◌, ◌==◌, if◌then◌else◌, length,
  get_or, drop,
}
use somenote.Libc.Int.{ℤ, pos}
use somenote.Libc.Text.{codes}
use somenote.Libc.Scan.{show_int, scan_int}
use somenote.Libc.Effect.{out_of_fuel, Cmd, pure, ◌>>=◌, ◌>>◌, get, need}
use somenote.Cvm.State.{
  dir, vmdir, diskdir, Host, Vm, or_old, set_file, set_cmd, print, print_int, answer, read_int,
  read_word, read_name,
}
use somenote.Cvm.Host.{system, log_and_run, getresult2, file_exist, monitor}
use somenote.Cvm.Machine.{quiet, image, vmison}
use somenote.Cvm.Images.{next_line, end_mark, print_listing}

-- Numbers and words behind a command, with a space before each.
abbrev pub arg : List ℕ → List ℕ
arg t = codes " " ++ t

module _ {W : Type 0} ⦃host : Host W⦄ where
  -- The number of a machine and whether it runs.
  print_state : ℤ → Cmd (Vm W) (Unit {0})
  print_state id = do on ← vmison id; print_int id; print_int (if on then pos 1 else pos 0)

  -- The loop of `online`: a line that begins with VM names a machine.
  online_loop : ℕ → Option ℤ → List ℕ → Cmd (Vm W) (Unit {0})
  online_loop zero old p = λ _. out_of_fuel
  online_loop (suc f) old p = elim p [
    | [] ↦ pure tt
    | c ∷ r ↦ elim (c == b'V' && get_or r 0 0 == b'M') [
      | true ↦ do
        let now_id = or_old (scan_int (drop 1 r)).0 old
        id ← need now_id
        print_state id
        p' ← need (next_line (c ∷ r))
        online_loop f now_id p'
      | false ↦ do p' ← need (next_line (c ∷ r)); online_loop f old p'
    ]
  ]

  pub online : ℕ → Cmd (Vm W) (Unit {0})
  online f = do
    set_cmd (codes "ls " ++ vmdir ++ codes " | grep VM")
    getresult2
    s ← get
    (if length s.result2 == 0 then pure tt else online_loop f none s.result2)
    print end_mark

  pub disk_list : ℕ → Cmd (Vm W) (Unit {0})
  disk_list f = print_listing f (codes "ls " ++ diskdir)

  -- The C library ends the text at the lone percent sign of "%s/%s%".
  pub disk_create : Cmd (Vm W) (Unit {0})
  disk_create = do
    name ← read_name
    size ← read_int none
    set_file (diskdir ++ codes "/" ++ name)
    s ← get
    set_cmd (
        codes "qemu-img create -f qcow2  "
        ++ s.file
        ++ codes " "
        ++ show_int size
        ++ codes "G"
        ++ quiet)
    log_and_run
    there ← file_exist
    answer there

  -- A disk is added to a machine: a drive, whose failure is told, then a device.
  add_disk : (id : ℤ) (disk_file disk_id : List ℕ) → Cmd (Vm W) (Unit {0})
  add_disk id disk_file disk_id = do
    set_cmd (codes "drive_add 0 if=none,file=" ++ disk_file ++ codes ",format=qcow2,id=" ++ disk_id)
    s ← get
    added ← monitor id s.cmd
    (if added then pure tt else answer false)
    set_cmd (codes "device_add virtio-blk-pci,drive=" ++ disk_id ++ codes ",id=" ++ disk_id)
    s₁ ← get
    done ← monitor id s₁.cmd
    answer done

  pub disk_mount : Cmd (Vm W) (Unit {0})
  disk_mount = do
    name ← read_name
    id ← read_int none
    set_file (diskdir ++ codes "/" ++ name)
    s ← get
    add_disk id s.file name

  -- A disk is taken from a machine.
  remove_disk : ℤ → List ℕ → Cmd (Vm W) (Unit {0})
  remove_disk id disk_id = do
    set_cmd (codes "device_del " ++ disk_id)
    s ← get
    done ← monitor id s.cmd
    answer done

  pub disk_umount : Cmd (Vm W) (Unit {0})
  disk_umount = do name ← read_name; id ← read_int none; remove_disk id name

  pub diskk_mount : Cmd (Vm W) (Unit {0})
  diskk_mount = do
    id ← read_int none
    disk ← read_word 64 none
    set_cmd (dir ++ codes "/file.sh" ++ arg (show_int id) ++ arg disk)
    s ← get
    system s.cmd
    set_file (vmdir ++ codes "/" ++ show_int id ++ codes "-" ++ disk)
    s₁ ← get
    add_disk id s₁.file (codes "xmdisk")

  pub diskk_umount : Cmd (Vm W) (Unit {0})
  diskk_umount = do id ← read_int none; remove_disk id (codes "xmdisk")

  -- The image of a machine that runs is not resized.
  pub diskk_expend : Cmd (Vm W) (Unit {0})
  diskk_expend = do
    id ← read_int none
    disks ← read_int none
    on ← vmison id
    if on then answer false else do
      set_cmd (
          codes "qemu-img resize "
          ++ image id
          ++ codes " +"
          ++ show_int disks
          ++ codes "G > /dev/null")
      log_and_run
      answer true
