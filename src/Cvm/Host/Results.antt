-- ===== src/Cvm/Host/Results.antt =====
-- The reading of a command's output, `getresult` of c_code/cvm/cvm.c.
use somenote.Common.{
  ℕ, ◌-◌, ◌≤◌, ◌<◌, ◌≡◌, refl, true, some, List, [], ◌∷◌, ◌++◌, length, arith, take_all, le→leb,
}
use somenote.Libc.Text.{NoNull, text_self}
use somenote.Libc.Effect.{ok}
use somenote.Cvm.State.{log, resultlen, Host, Vm, cmdlen, filelen, set_cmd, set_file, fits}
use somenote.Cvm.Host.{append_to, xmlog, capture, getresult, log_and_run, system}

-- The log can be written at any time.
abbrev pub AlwaysLogs : {W : Type 0} → Host W → Type 0
AlwaysLogs {W} host = (t : List ℕ) (w : W) → (w' : W) × (host.append_file log t w ≡ some w')

module _ {W : Type 0} ⦃host : Host W⦄ where
  -- What a command of the shell writes at a state: a text that the pipe and the buffer can hold.
  abbrev pub Writes : List ℕ → W → List ℕ → Type 0
  Writes command w out =
      ((host.shell command w).0 ≡ out)
      × (length out ≤ host.pipe_size)
      × (length out < 65536)
      × NoNull out

  append_to-some :
      (path t : List ℕ) (w : W) (s : Vm W)
      → host.append_file path t s.world ≡ some w
      → append_to path t s ≡ ok tt (record s { world = w })
  unfolding append_to
  append_to-some path t w s h = rw (append_to, h) refl

  xmlog-AlwaysLogs :
      AlwaysLogs host
      → (t : List ℕ) (s : Vm W) → (w : W) × (xmlog t s ≡ ok tt (record s { world = w }))
  unfolding xmlog
  xmlog-AlwaysLogs h t s =
      let line = host.ctime s.world ++ t ++ 10 ∷ [] in
      let (w, e) = h line s.world in (w, append_to-some log line w s e)

  capture-Writes :
      (command out : List ℕ) (s : Vm W)
      → Writes command s.world out
      → capture command s ≡ ok out (record s { world = (host.shell command s.world).1 })
  unfolding capture
  capture-Writes command out s h = rw (
    h.0,
    le→leb (length out) host.pipe_size h.1,
    take_all (resultlen - 1) out (omega (arith, h.2)),
    text_self out h.3,
  )

  pub getresult-Writes :
      AlwaysLogs host
      → (out : List ℕ) (s : Vm W) → Writes s.cmd s.world out
      → (w : W) × (getresult true s ≡ ok tt (record s { world = w; result = out }))
  unfolding getresult
  getresult-Writes logs out s h =
      let s₁ = record s { world = (host.shell s.cmd s.world).1; result = out } in
      let (w₂, e₂) = xmlog-AlwaysLogs logs s.cmd s₁ in
      let s₂ = record s { world = w₂; result = out } in
      let (w₃, e₃) = xmlog-AlwaysLogs logs out s₂ in (w₃, rw (capture-Writes s.cmd out s h, e₂) e₃)

  pub set_cmd-fits :
      (t : List ℕ) (s : Vm W) → length t < 4096 → set_cmd t s ≡ ok tt (record s { cmd = t })
  unfolding set_cmd
  set_cmd-fits t s h = rw (fits-lt t h) refl
    where
      fits-lt : (t : List ℕ) → length t < 4096 → fits cmdlen t ≡ true
      fits-lt t h = ground arith

  pub set_file-fits :
      (t : List ℕ) (s : Vm W) → length t < 1024 → set_file t s ≡ ok tt (record s { file = t })
  unfolding set_file
  set_file-fits t s h = rw (fits-lt t h) refl
    where
      fits-lt : (t : List ℕ) → length t < 1024 → fits filelen t ≡ true
      fits-lt t h = ground arith

  pub log_and_run-AlwaysLogs :
      AlwaysLogs host → (s : Vm W) → (w : W) × (log_and_run s ≡ ok tt (record s { world = w }))
  unfolding log_and_run system
  log_and_run-AlwaysLogs logs s =
      let (w, e) = xmlog-AlwaysLogs logs s.cmd s in (host.system s.cmd w, rw e refl)
