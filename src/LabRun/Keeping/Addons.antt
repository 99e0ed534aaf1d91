-- ===== src/LabRun/Keeping/Addons.antt =====
-- scripts/setup_lab.py: what an add-on's installer and a node's commands keep.
use lab_in_a_box.Prelude.{String, Bool, true, false, ◌++◌, List, [], ◌∷◌, ◌≡◌, arith}
use lab_in_a_box.Result.{Result, ok, raise}
use lab_in_a_box.LabRun.{
  finished, pending, failed_with, Exit, Scope, Problem, addon_exited, command_failed, add_addon,
  add_error, is_success, addon_status, Call, run_addon, run_command, Outside, State, M, ◌>>=◌, pure,
  lift, attempt, is_runtime_error, perform, note, add_errors,
}
use lab_in_a_box.LabRun.Machines.{act}
use lab_in_a_box.LabRun.Clusters.{addon_ended, run_installer, after_command, run_commands}
use lab_in_a_box.LabRun.Keeping.{
  Keeping, Keeps, Keeps-continue, Keeps-bind, Keeps-for_each, Keeps-if,
}
use lab_in_a_box.LabRun.Keeping.Machines.{act-Keeps}

addon_status_success : (rc : Exit) → is_success rc ≡ true → addon_status rc false ≡ finished
unfolding addon_status
addon_status_success rc e = ground arith

addon_status_handed_off : (rc : Exit) → is_success rc ≡ true → addon_status rc true ≡ pending
unfolding addon_status
addon_status_handed_off rc e = ground arith

addon_status_failure :
    (rc : Exit) (off : Bool) → is_success rc ≡ false → addon_status rc off ≡ failed_with rc
unfolding addon_status
addon_status_failure rc off e = ground arith

module _ {W : Type 0} (out : Outside W) (P : Call → Type 0) (Inv : State W → Type 0)
    (k : Keeping W P Inv) where
  addon_ended-Keeps :
      (scope : Scope) (a : String) (r : Exit × Bool) → Keeps Inv (addon_ended out scope a r)
  addon_ended-Keeps scope a (rc, off) =
      Keeps-if Inv (is_success rc) (note (add_addon scope a (addon_status rc off)))
        (note
          (λ r. add_error (addon_exited scope a rc) (add_addon scope a (addon_status rc off) r)))
        (ended off)
        (λ e s i.
          rw (addon_status_failure rc off e)
            (k.addon_failure scope a rc (addon_exited scope a rc) s i))
    where
      ended :
          (o : Bool)
          → is_success rc ≡ true
          → Keeps Inv (note (add_addon scope a (addon_status rc o)))
      ended true e s i = rw (addon_status_handed_off rc e) (k.addon_pending scope a s i)
      ended false e s i = rw (addon_status_success rc e) (k.addon_finished scope a s i)

  pub run_installer-Keeps :
      (scope : Scope) (a vm path : String)
      → P (run_addon scope a vm)
      → Keeps Inv (run_installer out scope a vm path)
  run_installer-Keeps scope a vm path p =
      Keeps-bind Inv (perform (run_addon scope a vm) (out.addon_run path vm scope))
        (addon_ended out scope a)
        (λ s i. k.call (run_addon scope a vm) p s (out.addon_run path vm scope s.world).1 i)
        (addon_ended-Keeps scope a)

  after_command-Keeps :
      (vm command : String) (r : Result {0} Unit) (ps : List Problem)
      → Keeps Inv (after_command out vm command r ps)
  after_command-Keeps vm command (ok u) ps s i = i
  after_command-Keeps vm command (raise e) ps s i =
      Keeps-if Inv (is_runtime_error e) (pure (ps ++ command_failed vm command ∷ []))
        (lift (raise e)) (λ q t j. j) (λ q t j. j) s i

  pub run_commands-Keeps :
      (vm target : String)
      → ((command : String) → P (run_command vm target command))
      → (commands : List String) (ps : List Problem)
      → Keeps Inv (run_commands out vm target commands ps)
  run_commands-Keeps vm target allows [] ps s i = i
  run_commands-Keeps vm target allows (c ∷ commands) ps s i =
      Keeps-continue Inv (one s).0 (run_commands out vm target commands)
        (run_commands-Keeps vm target allows commands) (one s).1
        (Keeps-bind Inv (attempt (act out (run_command vm target c)))
          (λ ended. after_command out vm c ended ps)
          (act-Keeps out P Inv k (run_command vm target c) (allows c))
          (λ ended. after_command-Keeps vm c ended ps) s i)
    where
      one : M W (List Problem)
      one = attempt (act out (run_command vm target c)) >>= λ ended. after_command out vm c ended ps

  pub errors-Keeps : (ps : List Problem) → Keeps Inv (add_errors ps)
  errors-Keeps ps = Keeps-for_each Inv (λ p. note (add_error p)) (λ p s i. k.problem p s i) ps
