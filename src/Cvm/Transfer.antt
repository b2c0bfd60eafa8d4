-- ===== src/Cvm/Transfer.antt =====
-- The commands of c_code/cvm/cvm.c that copy images between hosts with rsync: `sync`, `migrate` and
-- `distb`.
use somenote.Common.{ℕ, zero, suc, true, false, none, List, ◌++◌, if◌then◌else◌}
use somenote.Libc.Int.{ℤ, pos, is_zero}
use somenote.Libc.Text.{codes}
use somenote.Libc.Scan.{show_int}
use somenote.Libc.Effect.{out_of_fuel, Cmd, pure, ◌>>=◌, ◌>>◌, get}
use somenote.Cvm.State.{
  isodir, sysdir, logdir, datasysdir, dataisodir, ifup, ifdown, Host, Vm, add_int, set_file,
  set_cmd, set_name, print_int, answer, read_int, read_long, read_word, read_name,
}
use somenote.Cvm.Host.{xmlog, usleep, log_and_run, monitor, exec, now, getpid, killpid}
use somenote.Cvm.Rate.{rate_two}
use somenote.Cvm.Machine.{image, base_image, monitors, vmadd, vmison, vmhalt}
use somenote.Cvm.Power.{each}
use somenote.Cvm.Images.{query, rebuild_twice, print_listing}

-- A path on another host.
abbrev pub at_host : List ℕ → List ℕ → List ℕ
at_host ip path = codes "root@" ++ ip ++ codes ":" ++ path

-- rsync in the background, its progress in the log of a time
abbrev pub rsync : (from to : List ℕ) → ℕ → List ℕ
rsync from to t =
    codes "rsync -avP "
    ++ from
    ++ codes " "
    ++ to
    ++ codes " > "
    ++ logdir
    ++ codes "/"
    ++ show_int (pos t)
    ++ codes " &"

-- The command of `migrate_recv0`.
abbrev receive_command : (id cpu mem : ℤ) (mac : List ℕ) → ℕ → List ℕ
receive_command id cpu mem mac t =
    codes "qemu-kvm -name VM"
    ++ show_int id
    ++ codes " -smp "
    ++ show_int cpu
    ++ codes ",maxcpus=240 -m "
    ++ show_int mem
    ++ codes " -rtc base=localtime -drive file="
    ++ image id
    ++ codes ",if=virtio,media=disk,index=0 -vnc :"
    ++ show_int (add_int id 100)
    ++ codes " -net nic,macaddr="
    ++ mac
    ++ codes ",model=virtio -net tap,script="
    ++ ifup
    ++ codes ",downscript="
    ++ ifdown
    ++ codes ",ifname=VM"
    ++ show_int id
    ++ codes " -usb -usbdevice tablet -enable-kvm"
    ++ monitors id
    ++ codes " -incoming tcp:0:"
    ++ show_int (add_int id 8000)
    ++ codes " > "
    ++ logdir
    ++ codes "/"
    ++ show_int (pos t)
    ++ codes " &"

module _ {W : Type 0} ⦃host : Host W⦄ where
  -- A transfer is started, and its time is printed.
  pub transfer : (from to : List ℕ) → Cmd (Vm W) (Unit {0})
  transfer from to = do t ← now; set_cmd (rsync from to t); log_and_run; print_int (pos t)

  pub sync_sync : Cmd (Vm W) (Unit {0})
  sync_sync = do
    id ← read_int none
    ip ← read_word 32 none
    transfer (base_image id) (at_host ip (base_image id))

  pub sync_query : Cmd (Vm W) (Unit {0})
  sync_query = query

  pub sync_rebuild : ℕ → Cmd (Vm W) (Unit {0})
  sync_rebuild f = do base ← read_int none; each f (rebuild_twice base) none; answer true

  pub migrate_send0 : Cmd (Vm W) (Unit {0})
  migrate_send0 = do
    id ← read_int none
    ip ← read_word 32 none
    set_cmd (codes "migrate -d -i tcp:" ++ ip ++ codes ":" ++ show_int (add_int id 8000))
    s ← get
    done ← monitor id s.cmd
    answer done

  pub migrate_recv0 : Cmd (Vm W) (Unit {0})
  migrate_recv0 = do
    id ← read_int none
    cpu ← read_int none
    mem ← read_int none
    mac ← read_word 1024 none
    base ← read_int none
    on ← vmison id
    _ ← if on then vmhalt id else pure true
    t ← now
    _ ← vmadd (pos 1) base id
    set_file (image id)
    set_cmd (receive_command id cpu mem mac t)
    s ← get
    xmlog s.cmd
    _ ← exec s.cmd
    print_int (pos t)

  pub migrate_query0 : Cmd (Vm W) (Unit {0})
  migrate_query0 = do t ← read_long; r ← rate_two (show_int t); print_int r

  pub migrate_cancel0 : Cmd (Vm W) (Unit {0})
  migrate_cancel0 = do id ← read_int none; done ← monitor id (codes "migrate_cancel"); answer done

  pub migrate_send1 : Cmd (Vm W) (Unit {0})
  migrate_send1 = do
    id ← read_int none
    ip ← read_word 32 none
    transfer (image id) (at_host ip (image id))

  pub migrate_query1 : Cmd (Vm W) (Unit {0})
  migrate_query1 = query

  -- `while(pid = getpid(name)) { killpid(pid); usleep(100000); }`
  cancel_loop : ℕ → List ℕ → Cmd (Vm W) (Unit {0})
  cancel_loop zero name = λ _. out_of_fuel
  cancel_loop (suc f) name = do
    pid ← getpid name
    elim (is_zero pid) [
      | true ↦ pure tt
      | false ↦ do killpid pid; usleep 100000; cancel_loop f name
    ]

  pub migrate_cancel1 : ℕ → Cmd (Vm W) (Unit {0})
  migrate_cancel1 f = do
    id ← read_int none
    ip ← read_word 32 none
    set_name (codes "rsync -avP " ++ image id ++ codes " " ++ at_host ip (image id))
    s ← get
    cancel_loop f s.name
    answer true

  pub migrate_delete1 : Cmd (Vm W) (Unit {0})
  migrate_delete1 = do
    id ← read_int none
    ip ← read_word 32 none
    set_cmd (codes "ssh root@" ++ ip ++ codes " rm " ++ image id)
    log_and_run
    answer true

  pub sys_list : ℕ → Cmd (Vm W) (Unit {0})
  sys_list f = do
    ip ← read_word 32 none
    print_listing f (codes "ssh root@" ++ ip ++ codes " ls " ++ datasysdir)

  -- A file of the data center is copied.
  fetch_from : (there here : List ℕ) → Cmd (Vm W) (Unit {0})
  fetch_from there here = do
    name ← read_name
    ip ← read_word 32 none
    transfer (at_host ip (there ++ codes "/" ++ name)) (here ++ codes "/" ++ name)

  pub sys_rsync : Cmd (Vm W) (Unit {0})
  sys_rsync = fetch_from datasysdir sysdir

  pub iso_list : ℕ → Cmd (Vm W) (Unit {0})
  iso_list f = do
    ip ← read_word 32 none
    print_listing f (codes "ssh root@" ++ ip ++ codes " ls " ++ dataisodir)

  pub iso_rsync : Cmd (Vm W) (Unit {0})
  iso_rsync = fetch_from dataisodir isodir

  pub sysiso_query : Cmd (Vm W) (Unit {0})
  sysiso_query = query
