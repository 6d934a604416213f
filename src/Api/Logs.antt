-- ===== src/Api/Logs.antt =====
-- internal/api: the logs of a VM and of an app.
use goship.Base.{
  Text, ℕ, zero, suc, Bool, [], ◌∷◌, Option, none, some, ◌==◌, text_eq, nat_eq, Result, ok, err,
  ◌>>=◌, ◌>>◌, require, ℤ, pos, negsuc, if◌then◌else◌,
}
use goship.Strings.{parse_int}
use goship.Store.Disk.{Store}
use goship.Store.Records
use goship.Store.Records.{get_app, get_instance}
use goship.Entities.Project.{Project}
use goship.Entities.App.{AppSpec}
use goship.Runtime.{ProjectRuntime}
use goship.Api.Replies.{
  ApiError, server_error, no_runtime, World, then_do, Vm, known_project, some_or_not_found, vm_of,
  known_vm, call_runtime, load_vm,
}

abbrev pub drop_newline : ℕ → Text → Text
drop_newline c [] = if c == 10 then [] else c ∷ []
drop_newline c (d ∷ s) = c ∷ (d ∷ s)

-- strings.TrimRight(logs, "\n")
unfoldable pub trim_newlines : Text → Text
trim_newlines [] = []
trim_newlines (c ∷ s) = drop_newline c (trim_newlines s)

abbrev pub positive_or : ℤ → Option ℤ → ℤ
positive_or d none = d
positive_or d (some (pos zero)) = d
positive_or d (some (pos (suc n))) = pos (suc n)
positive_or d (some (negsuc n)) = d

-- The count of lines that is asked for, or a hundred.
unfoldable pub lines_of : Text → ℤ
unfolding parse_int
lines_of q = positive_or (pos 100) (parse_int q)

abbrev pub logs_reply : {R : Type 0} → Result Text Text × World R → Result ApiError Text × World R
logs_reply (err x, w) = (err server_error, w)
logs_reply (ok logs, w) = (ok (trim_newlines logs), w)

pub record KnownApp : Type 0 where
  pub project : Project
  pub app : AppSpec

-- The start of the handlers of an app that need the runtime.
unfoldable pub known_app : Bool → Text → Text → Store → Result ApiError KnownApp
unfolding known_project get_app
known_app runtime id name s = do
  require runtime no_runtime
  p ← known_project id s
  a ← some_or_not_found (Records.get_app p.id name s)
  ok (record { project = p; app = a })

unfoldable pub known_app_vm : Bool → Text → Text → Store → Result ApiError Vm
unfolding known_app get_instance
known_app_vm runtime id name s = do k ← known_app runtime id name s; vm_of s k.project

module _ {R : Type 0} (rt : ProjectRuntime R) where
  -- `handleProjectLogs`
  unfoldable pub handle_project_logs :
      Bool → Text → Text → Text → Text → World R → Result ApiError Text × World R
  unfolding known_vm lines_of trim_newlines
  handle_project_logs runtime id source file lines w =
      then_do (known_vm runtime id w.server.store)
        (λ v u. logs_reply (
          call_runtime rt v.machine.id (rt.get_vm_logs v.machine.id source file (lines_of lines))
            (load_vm rt v.machine u)))
        w

  -- `handleAppLogs`
  unfoldable pub handle_app_logs :
      Bool → Text → Text → Text → World R → Result ApiError Text × World R
  unfolding known_app_vm lines_of trim_newlines
  handle_app_logs runtime id name lines w =
      then_do (known_app_vm runtime id name w.server.store)
        (λ v u. logs_reply (
          call_runtime rt v.machine.id (rt.get_app_logs v.machine.id name (lines_of lines))
            (load_vm rt v.machine u)))
        w
