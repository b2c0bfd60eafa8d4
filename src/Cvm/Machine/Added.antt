-- ===== src/Cvm/Machine/Added.antt =====
-- The making of a machine, `vmadd` of c_code/cvm/cvm.c.
use somenote.Common.{
  ℕ, ◌<◌, ◌≡◌, refl, Bool, List, ◌++◌, length, length-append, arith, Bool-cases, inl, inr,
}
use somenote.Libc.Int.{ℤ}
use somenote.Libc.Text.{codes}
use somenote.Libc.Scan.{show_int}
use somenote.Libc.Scan.RoundTrip.{IsInt}
use somenote.Libc.Scan.Width.{length-show_int}
use somenote.Libc.Effect.{ok, Cmd}
use somenote.Cvm.State.{Host, Vm, is_num}
use somenote.Cvm.Host.{file_exist}
use somenote.Cvm.Host.Results.{AlwaysLogs, set_cmd-fits, set_file-fits, log_and_run-AlwaysLogs}
use somenote.Cvm.Machine.{quiet, image, base_image, vmadd_overlay, vmadd_test, vmadd_new, vmadd}
use somenote.Cvm.Machine.Deleted.{image_short}

overlay_short :
    (arg id : ℤ)
    → IsInt arg
    → IsInt id
    → length (
        codes "qemu-img create -f qcow2 -o backing_file="
        ++ base_image arg
        ++ codes " "
        ++ image id
        ++ quiet)
      < 4096
overlay_short arg id h k =
    let e = length-append (show_int arg ++ codes " " ++ image id) quiet in
    let e' = length-append (show_int arg ++ codes " ") (image id) in
    let e'' = length-append (show_int arg) (codes " ") in
    omega (arith, e, e', e'', length-show_int arg h, length-show_int id k)

new_short :
    (arg id : ℤ)
    → IsInt arg
    → IsInt id
    → length (
        codes "qemu-img create -f qcow2  "
        ++ base_image id
        ++ codes " "
        ++ show_int arg
        ++ codes "G"
        ++ quiet)
      < 4096
new_short arg id h k =
    let e = length-append (show_int id ++ codes " " ++ show_int arg ++ codes "G") quiet in
    let e₁ = length-append (show_int id ++ codes " " ++ show_int arg) (codes "G") in
    let e₂ = length-append (show_int id ++ codes " ") (show_int arg) in
    let e₃ = length-append (show_int id) (codes " ") in
    omega (arith, e, e₁, e₂, e₃, length-show_int arg h, length-show_int id k)

module _ {W : Type 0} ⦃host : Host W⦄ where
  -- The call returns, and has only written, logged and run a command.
  abbrev Runs : Cmd (Vm W) (Unit {0}) → Vm W → Type 0
  Runs m s = (c : List ℕ) × (w : W) × (m s ≡ ok tt (record s { cmd = c; world = w }))

  overlay-Runs :
      AlwaysLogs host
      → (arg id : ℤ) (s : Vm W) → IsInt arg
      → IsInt id
      → Runs (vmadd_overlay arg id) s
  unfolding vmadd_overlay
  overlay-Runs logs arg id s h k =
      let c =
        codes "qemu-img create -f qcow2 -o backing_file="
        ++ base_image arg
        ++ codes " "
        ++ image id
        ++ quiet in
      let (w, e) = log_and_run-AlwaysLogs logs (record s { cmd = c }) in
      (c, w, rw (set_cmd-fits c s (overlay_short arg id h k)) e)

  test-there :
      (id : ℤ) (s : Vm W)
      → IsInt id
      → vmadd_test id s ≡ ok (host.exists (image id) s.world) (record s { file = image id })
  unfolding vmadd_test file_exist
  test-there id s h = rw (set_file-fits (image id) s (image_short id h)) refl

  -- vmadd returns whether the image is there.
  abbrev pub SaysThere : Cmd (Vm W) Bool → ℤ → Vm W → Type 0
  SaysThere m id s =
      (s' : Vm W) × (m s ≡ ok (host.exists (image id) s'.world) s')
      × (s'.input ≡ s.input)
      × (s'.output ≡ s.output)

  new-there :
      AlwaysLogs host
      → (arg id : ℤ) (s : Vm W) → IsInt arg
      → IsInt id
      → SaysThere (vmadd_new arg id) id s
  unfolding vmadd_new
  new-there logs arg id s h k =
      let c =
        codes "qemu-img create -f qcow2  "
        ++ base_image id
        ++ codes " "
        ++ show_int arg
        ++ codes "G"
        ++ quiet in
      let s₁ = record s { cmd = c } in
      let (w, e) = log_and_run-AlwaysLogs logs s₁ in
      let s₂ = record s₁ { world = w } in
      let (c', w', e') = overlay-Runs logs id id s₂ k k in
      let s₃ = record s₂ { cmd = c'; world = w' } in
      (
        record s₃ { file = image id },
        rw (set_cmd-fits c s (new_short arg id h k), e, e', test-there id s₃ k)
            (test-there id (record s₃ { file = image id }) k),
        refl,
        refl,
      )

  -- Where the log can always be written, for numbers of an int, vmadd of any type returns
  -- whether the image, VM and the number of the machine, is there behind its commands; it
  -- touches neither input nor output.
  pub vmadd-AlwaysLogs :
      AlwaysLogs host
      → (type arg id : ℤ) (s : Vm W) → IsInt arg
      → IsInt id
      → SaysThere (vmadd type arg id) id s
  unfolding vmadd
  vmadd-AlwaysLogs logs type arg id s h k = elim (Bool-cases (is_num type 1)) [
    | inl one ↦
        let (c, w, e) = overlay-Runs logs arg id s h k in
        let s₁ = record s { cmd = c; world = w } in
        (record s₁ { file = image id }, rw (one, e) (test-there id s₁ k), refl, refl)
    | inr other ↦ elim (Bool-cases (is_num type 2)) [
      | inl two ↦ let (s', e, i, o) = new-there logs arg id s h k in (s', rw (other, two) e, i, o)
      | inr neither ↦
          (record s { file = image id }, rw (other, neither) (test-there id s k), refl, refl)
    ]
  ]
