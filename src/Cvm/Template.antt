-- ===== src/Cvm/Template.antt =====
-- The templates of c_code/cvm/cvm.c: `oson`, which installs one, and `os_same`.
pub mod Same
use somenote.Common.{
  ℕ, zero, suc, ◌+◌, ◌-◌, Bool, true, false, ◌||◌, not, Option, none, some, List, [], ◌∷◌, ◌++◌,
  ◌==◌, if◌then◌else◌, length, drop, get_or,
}
use somenote.Libc.Int.{ℤ, pos, negsuc}
use somenote.Libc.Text.{text, codes}
use somenote.Libc.Scan.{scan_int, skip_space, word, show_int, strstr}
use somenote.Libc.Effect.{Run, ok, out_of_fuel, Cmd, pure, ◌>>=◌, ◌>>◌, get, modify, need, fit}
use somenote.Cvm.State.{
  vmdir, cldir, qmdir, isodir, datasysdir, ifup, ifdown, fake, virtio, vnctoken, Host, Vm, fits,
  add_int, is_num, set_file, set_cmd,
}
use somenote.Cvm.Host.{
  xmlog, system, usleep, log_and_run, getresult, file_exist, monitor, exec, view_mode, is_some,
}
use somenote.Cvm.Machine.{quiet, base_image, monitors, vmison}

-- The command of `oson`.
abbrev oson_command : (id cpu : ℤ) (cpu_type : List ℕ) (mem : ℤ) (mac os_iso : List ℕ) → List ℕ
oson_command id cpu cpu_type mem mac os_iso =
    codes "qemu-kvm -name VM"
    ++ show_int id
    ++ codes " -smp "
    ++ show_int cpu
    ++ codes ",maxcpus=240 -cpu "
    ++ cpu_type
    ++ codes " -m "
    ++ show_int mem
    ++ codes " -drive file="
    ++ base_image id
    ++ codes ",if=ide,media=disk,index=0 -drive file="
    ++ fake
    ++ codes ",if=virtio,media=disk,index=1 -drive file="
    ++ virtio
    ++ codes ",if=ide,media=cdrom -cdrom "
    ++ isodir
    ++ codes "/"
    ++ os_iso
    ++ codes " -vnc :"
    ++ show_int (add_int id 100)
    ++ codes " -enable-kvm -boot once=d -usbdevice tablet -net nic,macaddr="
    ++ mac
    ++ codes ",model=virtio -net tap,script="
    ++ ifup
    ++ codes ",downscript="
    ++ ifdown
    ++ codes ",ifname=VM"
    ++ show_int id
    ++ monitors id
    ++ quiet
    ++ codes " &"

-- A place at the start of a line: `p1 == result` or `*(p1-1) == '\n'`.
pub at_line_start : List ℕ → ℕ → Bool
at_line_start s p = p == 0 || get_or s (p - 1) 0 == 10

-- The loop of `os_same`: whether the line is found.
pub same_loop : {S : Type 0} → ℕ → List ℕ → List ℕ → ℕ → Cmd S Bool
same_loop zero line s p = λ _. out_of_fuel
same_loop (suc f) line s p = elim (strstr (drop p s) line) [
  | none ↦ pure false
  | some i ↦ elim (at_line_start s (p + i)) [
    | true ↦ pure true
    | false ↦ do k ← need (strstr (drop (p + i) s) (10 ∷ [])); same_loop f line s (p + i + k)
  ]
]

module _ {W : Type 0} ⦃host : Host W⦄ where
  pub oson : (id cpu : ℤ) (cpu_type : List ℕ) (mem : ℤ) (mac os_iso : List ℕ) → Cmd (Vm W) Bool
  oson id cpu cpu_type mem mac os_iso = do
    on ← vmison id
    if on then pure false else do
      set_file (base_image id)
      set_cmd (oson_command id cpu cpu_type mem mac os_iso)
      s ← get
      xmlog s.cmd
      _ ← exec s.cmd
      usleep 100000
      vmison id

  -- No line of the listing at the data center is the name. The line is put into a buffer of 1024.
  pub os_same : ℕ → (name ip : List ℕ) → Cmd (Vm W) Bool
  os_same f name ip = do
    let line = name ++ 10 ∷ []
    fit (fits 1024 line)
    set_cmd (codes "ssh root@" ++ ip ++ codes " ls " ++ datasysdir)
    getresult true
    s ← get
    if length s.result == 0
        then pure true
        else do found ← same_loop f line s.result 0; pure (not found)
