-- ===== src/Cvm/Machine.antt =====
-- The machines of c_code/cvm/cvm.c: `vmadd` to `vmcontinue`.
pub mod Added
pub mod Deleted
pub mod Keeps
use somenote.Common.{
  ℕ, zero, suc, ◌+◌, ◌-◌, Bool, true, false, ◌||◌, not, Option, none, some, List, [], ◌∷◌, ◌++◌,
  ◌==◌, if◌then◌else◌, length, drop, get_or,
}
use somenote.Libc.Int.{ℤ, pos, negsuc}
use somenote.Libc.Text.{text, codes}
use somenote.Libc.Scan.{scan_int, skip_space, word, show_int, strstr}
use somenote.Libc.Effect.{Run, ok, out_of_fuel, Cmd, pure, ◌>>=◌, ◌>>◌, get, modify, need, fit}
use somenote.Cvm.State.{
  vmdir, cldir, qmdir, isodir, datasysdir, ifup, ifdown, fake, virtio, vnctoken, Host, Vm, fits,
  add_int, is_num, set_file, set_cmd,
}
use somenote.Cvm.Host.{
  xmlog, system, usleep, log_and_run, getresult, file_exist, monitor, exec, view_mode, is_some,
}

-- `... > /dev/null 2>&1`
abbrev pub quiet : List ℕ
quiet = codes " > /dev/null 2>&1"

-- The image of a machine, and the one that it is based on.
abbrev pub image : ℤ → List ℕ
image id = vmdir ++ codes "/VM" ++ show_int id

abbrev pub base_image : ℤ → List ℕ
base_image id = vmdir ++ codes "/BACK" ++ show_int id

-- The part of a qemu command that names the sockets of the monitor.
abbrev pub monitors : ℤ → List ℕ
monitors id =
    codes " -chardev socket,id=CL"
    ++ show_int id
    ++ codes ",path="
    ++ cldir
    ++ codes "/CL"
    ++ show_int id
    ++ codes ",server,nowait -monitor chardev:CL"
    ++ show_int id
    ++ codes " -chardev socket,id=QM"
    ++ show_int id
    ++ codes ",path="
    ++ qmdir
    ++ codes "/QM"
    ++ show_int id
    ++ codes ",server,nowait -qmp chardev:QM"
    ++ show_int id

-- The command of `vmon`.
abbrev vmon_command : (id cpu : ℤ) (cpu_type : List ℕ) (mem : ℤ) (mac : List ℕ) → List ℕ
vmon_command id cpu cpu_type mem mac =
    codes "qemu-kvm -name VM"
    ++ show_int id
    ++ codes " -smp "
    ++ show_int cpu
    ++ codes ",maxcpus=240 -cpu "
    ++ cpu_type
    ++ codes " -m "
    ++ show_int mem
    ++ codes " -rtc base=localtime -drive file="
    ++ image id
    ++ codes ",if=virtio,media=disk,index=0 -vnc :"
    ++ show_int (add_int id 100)
    ++ codes " -net nic,macaddr="
    ++ mac
    ++ codes ",model=virtio -net tap,script="
    ++ ifup
    ++ codes ",downscript="
    ++ ifdown
    ++ codes ",ifname=VM"
    ++ show_int id
    ++ codes " -usb -usbdevice tablet -enable-kvm"
    ++ monitors id
    ++ quiet
    ++ codes " &"

module _ {W : Type 0} ⦃host : Host W⦄ where
  -- `vmadd(1, arg, id)`: an image on top of another
  pub vmadd_overlay : (arg id : ℤ) → Cmd (Vm W) (Unit {0})
  vmadd_overlay arg id = do
    set_cmd (
        codes "qemu-img create -f qcow2 -o backing_file="
        ++ base_image arg
        ++ codes " "
        ++ image id
        ++ quiet)
    log_and_run

  -- `sprintf(file, "%s/VM%d", vmdir, id)` and the test of the file
  pub vmadd_test : ℤ → Cmd (Vm W) Bool
  vmadd_test id = do set_file (image id); file_exist

  -- `vmadd(2, arg, id)`: a new image of `arg` gigabytes, and one on top of it
  pub vmadd_new : (arg id : ℤ) → Cmd (Vm W) Bool
  vmadd_new arg id = do
    set_cmd (
        codes "qemu-img create -f qcow2  "
        ++ base_image id
        ++ codes " "
        ++ show_int arg
        ++ codes "G"
        ++ quiet)
    log_and_run
    vmadd_overlay id id
    _ ← vmadd_test id
    vmadd_test id

  pub vmadd : (type arg id : ℤ) → Cmd (Vm W) Bool
  vmadd type arg id =
      if is_num type 1
      then (do vmadd_overlay arg id; vmadd_test id)
      else if is_num type 2
      then vmadd_new arg id
      else vmadd_test id

  pub vmdel : ℤ → Cmd (Vm W) Bool
  vmdel id = do
    set_file (image id)
    set_cmd (codes "rm -f " ++ image id ++ quiet)
    log_and_run
    set_file (base_image id)
    set_cmd (codes "rm -f " ++ base_image id ++ quiet)
    log_and_run
    set_cmd (codes "sed -i '/VM" ++ show_int id ++ codes ":/d' " ++ vnctoken)
    log_and_run
    there ← file_exist
    pure (not there)

  -- Whether one process has the name of the machine.
  pub vmison : ℤ → Cmd (Vm W) Bool
  vmison id = do
    set_cmd (
        codes "ps -ef | grep \"qemu-kvm -name VM"
        ++ show_int id
        ++ codes " \" | grep -v grep | wc -l")
    getresult false
    s ← get
    rs ← need (scan_int s.result).0
    pure (is_num rs 1)

  pub vmstatus : ℤ → Cmd (Vm W) ℕ
  vmstatus id = do on ← vmison id; pure (if on then 0 else 1)

  -- What `vmon` tells a machine that it has started.
  vmon_started : ℕ → ℤ → Cmd (Vm W) Bool
  vmon_started f id = do
    _ ← monitor id (codes "loadvm init")
    _ ← monitor id (codes "c")
    view ← view_mode f id
    _ ← if view then monitor id (codes "change vnc password cac028") else pure false
    pure true

  pub vmon : ℕ → (id cpu : ℤ) (cpu_type : List ℕ) (mem : ℤ) (mac : List ℕ) → Cmd (Vm W) Bool
  vmon f id cpu cpu_type mem mac = do
    on ← vmison id
    if on then pure true else do
      set_file (image id)
      set_cmd (vmon_command id cpu cpu_type mem mac)
      s ← get
      xmlog s.cmd
      _ ← exec s.cmd
      usleep 100000
      started ← vmison id
      if started then vmon_started f id else pure false

  pub vmoff : ℤ → Cmd (Vm W) Bool
  vmoff id = do on ← vmison id; if on then monitor id (codes "system_powerdown") else pure true

  -- The process of the machine is killed.
  pub kill_machine : ℤ → Cmd (Vm W) Bool
  kill_machine id = do
    s ← get
    rs ← need (scan_int (word (skip_space s.result)).1).0
    set_cmd (codes "kill -9 " ++ show_int rs ++ quiet)
    log_and_run
    usleep 100000
    on ← vmison id
    pure (not on)

  pub vmhalt : ℤ → Cmd (Vm W) Bool
  vmhalt id = do
    on ← vmison id
    if not on then pure true else do
      set_cmd
          (codes "ps -ef | grep \"qemu-kvm -name VM" ++ show_int id ++ codes " \" | grep -v grep")
      getresult true
      s ← get
      if length s.result == 0 then pure true else kill_machine id

  pub vmreset : ℤ → Cmd (Vm W) Bool
  vmreset id = monitor id (codes "system_reset")

  pub vmstop : ℤ → Cmd (Vm W) Bool
  vmstop id = monitor id (codes "stop")

  pub vmcontinue : ℤ → Cmd (Vm W) Bool
  vmcontinue id = monitor id (codes "c")
