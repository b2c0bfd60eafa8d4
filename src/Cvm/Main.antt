-- ===== src/Cvm/Main.antt =====
-- `main` of c_code/cvm/cvm.c: the command word, then the number of what is to be done.
pub mod Batches
pub mod Runs
pub mod Words
use Prim.Native.String.{String}
use somenote.Common.{
  ℕ, zero, suc, Bool, true, false, Option, none, some, List, [], ◌∷◌, ◌++◌, ◌==◌, if◌then◌else◌,
}
use somenote.Libc.Int.{ℤ, pos, negsuc}
use somenote.Libc.Text.{codes, same_text}
use somenote.Libc.Effect.{Run, ok, Cmd, pure, ◌>>=◌, ◌>>◌}
use somenote.Cvm.State.{Host, Vm, read_int, read_word}
use somenote.Cvm.Power.{
  addvm, delvm, ppower_status, ppower_on, ppower_off, ppower_halt, ppower_reset, ppower_stop,
  ppower_continue, power_status, power_on, power_off, power_halt, power_reset, power_stop,
  power_continue, power_commit, power_drop, power_rebuild, power_compare, os_power_on,
}
use somenote.Cvm.Images.{
  snapshot_list, snapshot_create, snapshot_del, snapshot_apply, cd_list, cd_mounted, cd_mount,
  cd_unmount, os_list, os_import, os_query, os_rebuild, os_upload,
}
use somenote.Cvm.Transfer.{
  sync_sync, sync_query, sync_rebuild, migrate_send0, migrate_recv0, migrate_query0,
  migrate_cancel0, migrate_send1, migrate_query1, migrate_cancel1, migrate_delete1, sys_list,
  sys_rsync, iso_list, iso_rsync, sysiso_query,
}
use somenote.Cvm.Backup.{
  backup_backup, backup_restore, backup_query, backup_rebase, alter_alter, alter_query,
  alter_rebase, pbackup_backup,
}
use somenote.Cvm.Disk.{
  online, disk_list, disk_create, disk_mount, disk_umount, diskk_mount, diskk_umount, diskk_expend,
}
use somenote.Cvm.Bridge.{brctl_addbr, brctl_addif, brctl_delbr, add_vm_view, del_vm_view}

-- The entry of a list with the number of the command, counted from 1; any other does nothing.
unfoldable pub pick_from : {A : Type 0} → List A → ℕ → Option A
pick_from [] n = none
pick_from (x ∷ xs) zero = none
pick_from (x ∷ xs) (suc n) = if n == 0 then some x else pick_from xs n

pub choose : {S : Type 0} → List (Cmd S (Unit {0})) → ℤ → Cmd S (Unit {0})
choose actions (negsuc n) = pure tt
choose actions (pos n) = elim (pick_from actions n) [ none ↦ pure tt | some act ↦ act ]

module _ {W : Type 0} ⦃host : Host W⦄ (f : ℕ) where
  -- `scanf("%d", &ctl)` and the chain of tests on it
  numbered : List (Cmd (Vm W) (Unit {0})) → Cmd (Vm W) (Unit {0})
  numbered actions = do ctl ← read_int none; choose actions ctl

  pub power : Cmd (Vm W) (Unit {0})
  power = numbered (
      power_status
      ∷ power_on f
      ∷ power_off
      ∷ power_reset
      ∷ power_stop
      ∷ power_continue
      ∷ power_halt
      ∷ power_commit
      ∷ power_drop
      ∷ power_rebuild f
      ∷ power_compare
      ∷ os_power_on
      ∷ [])

  pub snapshot : Cmd (Vm W) (Unit {0})
  snapshot = numbered (snapshot_list f ∷ snapshot_create ∷ snapshot_del ∷ snapshot_apply ∷ [])

  pub cd : Cmd (Vm W) (Unit {0})
  cd = numbered (cd_list f ∷ cd_mounted ∷ cd_mount ∷ cd_unmount ∷ [])

  pub ppower : Cmd (Vm W) (Unit {0})
  ppower = numbered (
      ppower_status f
      ∷ ppower_on f
      ∷ ppower_off f
      ∷ ppower_reset f
      ∷ ppower_stop f
      ∷ ppower_continue f
      ∷ ppower_halt f
      ∷ [])

  pub os : Cmd (Vm W) (Unit {0})
  os = numbered (os_list f ∷ os_import ∷ os_query ∷ os_rebuild f ∷ os_upload f ∷ [])

  pub sync : Cmd (Vm W) (Unit {0})
  sync = numbered (sync_sync ∷ sync_query ∷ sync_rebuild f ∷ [])

  -- The fourth does nothing.
  pub migrate : Cmd (Vm W) (Unit {0})
  migrate = numbered (
      migrate_send0
      ∷ migrate_recv0
      ∷ migrate_send1
      ∷ pure tt
      ∷ migrate_query0
      ∷ migrate_query1
      ∷ migrate_cancel0
      ∷ migrate_cancel1 f
      ∷ migrate_delete1
      ∷ [])

  pub distb : Cmd (Vm W) (Unit {0})
  distb = numbered (sys_list f ∷ sys_rsync ∷ iso_list f ∷ iso_rsync ∷ sysiso_query ∷ [])

  pub backup : Cmd (Vm W) (Unit {0})
  backup = numbered (backup_backup ∷ backup_restore ∷ backup_query ∷ backup_rebase ∷ [])

  pub alter : Cmd (Vm W) (Unit {0})
  alter = numbered (alter_alter ∷ alter_query ∷ alter_rebase ∷ [])

  pub disk : Cmd (Vm W) (Unit {0})
  disk = numbered (disk_list f ∷ disk_create ∷ disk_mount ∷ disk_umount ∷ [])

  pub brctl : Cmd (Vm W) (Unit {0})
  brctl = numbered (brctl_addbr ∷ brctl_delbr f ∷ brctl_addif f ∷ [])

  pub diskk : Cmd (Vm W) (Unit {0})
  diskk = numbered (diskk_mount ∷ diskk_umount ∷ diskk_expend ∷ [])

  -- The third does nothing.
  pub viewmode : Cmd (Vm W) (Unit {0})
  viewmode = numbered (add_vm_view f ∷ del_vm_view f ∷ [])

  -- The commands by their words, in the order of the tests.
  unfoldable pub commands : List (List ℕ × Cmd (Vm W) (Unit {0}))
  commands =
      (codes "addvm", addvm f)
      ∷ (codes "delvm", delvm f)
      ∷ (codes "power", power)
      ∷ (codes "snapshot", snapshot)
      ∷ (codes "cd", cd)
      ∷ (codes "ppower", ppower)
      ∷ (codes "os", os)
      ∷ (codes "sync", sync)
      ∷ (codes "migrate", migrate)
      ∷ (codes "distb", distb)
      ∷ (codes "backup", backup)
      ∷ (codes "alter", alter)
      ∷ (codes "online", online f)
      ∷ (codes "disk", disk)
      ∷ (codes "brctl", brctl)
      ∷ (codes "diskk", diskk)
      ∷ (codes "pbackup", pbackup_backup f)
      ∷ (codes "viewmode", viewmode)
      ∷ []

-- The first command with the word; another word does nothing.
pub dispatch : {S : Type 0} → List (List ℕ × Cmd S (Unit {0})) → List ℕ → Cmd S (Unit {0})
dispatch [] w = pure tt
dispatch ((name, act) ∷ rest) w = if same_text w name then act else dispatch rest w

module _ {W : Type 0} ⦃host : Host W⦄ where
  pub main : ℕ → Cmd (Vm W) (Unit {0})
  main f = do w ← read_word 1024 none; dispatch (commands f) w
