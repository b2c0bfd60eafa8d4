-- ===== src/Cvm/Machine/Deleted.antt =====
-- The deletion of a machine, `vmdel` of c_code/cvm/cvm.c.
use somenote.Common.{◌<◌, ◌≡◌, refl, not, ◌++◌, length, length-append, arith}
use somenote.Libc.Int.{ℤ}
use somenote.Libc.Text.{codes}
use somenote.Libc.Scan.{show_int}
use somenote.Libc.Scan.RoundTrip.{IsInt}
use somenote.Libc.Scan.Width.{length-show_int}
use somenote.Libc.Effect.{ok}
use somenote.Cvm.State.{Host, Vm, vnctoken}
use somenote.Cvm.Host.{file_exist}
use somenote.Cvm.Host.Results.{AlwaysLogs, set_cmd-fits, set_file-fits, log_and_run-AlwaysLogs}
use somenote.Cvm.Machine.{quiet, image, base_image, vmdel}

-- The paths and the three commands are short.
pub image_short : (z : ℤ) → IsInt z → length (image z) < 1024
image_short z h = omega (arith, length-show_int z h)

base_short : (z : ℤ) → IsInt z → length (base_image z) < 1024
base_short z h = omega (arith, length-show_int z h)

remove_short : (z : ℤ) → IsInt z → length (codes "rm -f " ++ image z ++ quiet) < 4096
remove_short z h = let e = length-append (show_int z) quiet in omega (arith, e, length-show_int z h)

remove_base_short : (z : ℤ) → IsInt z → length (codes "rm -f " ++ base_image z ++ quiet) < 4096
remove_base_short z h =
    let e = length-append (show_int z) quiet in omega (arith, e, length-show_int z h)

token_short :
    (z : ℤ)
    → IsInt z
    → length (codes "sed -i '/VM" ++ show_int z ++ codes ":/d' " ++ vnctoken) < 4096
token_short z h =
    let e = length-append (show_int z ++ codes ":/d' ") vnctoken in
    let e' = length-append (show_int z) (codes ":/d' ") in omega (arith, e, e', length-show_int z h)

module _ {W : Type 0} ⦃host : Host W⦄ where
  -- vmdel returns whether the base image is gone.
  abbrev pub SaysGone : ℤ → Vm W → Type 0
  SaysGone z s =
      (s' : Vm W) × (vmdel z s ≡ ok (not (host.exists (base_image z) s'.world)) s')
      × (s'.input ≡ s.input)
      × (s'.output ≡ s.output)

  -- Where the log can always be written, for the number of an int, vmdel returns whether
  -- the base image, BACK and the number, is gone behind its commands; it touches neither
  -- input nor output.
  pub vmdel-AlwaysLogs : AlwaysLogs host → (z : ℤ) (s : Vm W) → IsInt z → SaysGone z s
  unfolding vmdel file_exist
  vmdel-AlwaysLogs logs z s h =
      let c₁ = codes "rm -f " ++ image z ++ quiet in
      let c₂ = codes "rm -f " ++ base_image z ++ quiet in
      let c₃ = codes "sed -i '/VM" ++ show_int z ++ codes ":/d' " ++ vnctoken in
      let s₁ = record s { file = image z; cmd = c₁ } in
      let (w₁, e₁) = log_and_run-AlwaysLogs logs s₁ in
      let s₂ = record s₁ { world = w₁; file = base_image z; cmd = c₂ } in
      let (w₂, e₂) = log_and_run-AlwaysLogs logs s₂ in
      let s₃ = record s₂ { world = w₂; cmd = c₃ } in
      let (w₃, e₃) = log_and_run-AlwaysLogs logs s₃ in
      (
        record s₃ { world = w₃ },
        rw
            (
              set_file-fits (image z) s (image_short z h),
              set_cmd-fits c₁ (record s { file = image z }) (remove_short z h),
              e₁,
              set_file-fits (base_image z) (record s₁ { world = w₁ }) (base_short z h),
              set_cmd-fits c₂ (record s₁ { world = w₁; file = base_image z })
                  (remove_base_short z h),
              e₂,
              set_cmd-fits c₃ (record s₂ { world = w₂ }) (token_short z h),
              e₃,
            )
            refl,
        refl,
        refl,
      )
