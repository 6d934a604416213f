-- ===== src/Api/Projects.antt =====
-- internal/api/project_handlers.go: `handleProjectUpdate`. The project is the object in the store,
-- under its ID, so that each assignment to its resources is a change of the state.
use goship.Base.{
  Text, Bool, true, false, not, ◌||◌, Option, none, some, is_some, put, if◌then◌else◌, Result, ok,
  err, ℤ, lt_ℤ,
}
use goship.Entities.Resources.{Resources, Float64}
use goship.Entities.Project.{Project}
use goship.Entities.Instance.{InstanceState}
use goship.Size.{SizeError, parse_size_mb}
use goship.Store.Disk.{Store, StoreError, Env}
use goship.Store.Projects.{get_project, update_project, with_projects}
use goship.Store.Records
use goship.Store.Records.{get_instance}

pub record UpdateProjectRequest : Type 0 where
  pub cpu : Option Float64
  pub memory_mb : Option ℤ
  pub memory : Option Text
  pub disk_mb : Option ℤ
  pub disk : Option Text

-- The resources as they are when the handler has read the request, or when it has refused it.
pub data Edit : Type 0 where
  accepted refused : Resources → Edit

abbrev pub resources_of_edit : Edit → Resources
resources_of_edit (accepted r) = r
resources_of_edit (refused r) = r

abbrev pub grow_disk : ℤ → Resources → Edit
grow_disk d r = if lt_ℤ d r.disk_mb then refused r else accepted (record r { disk_mb = d })

abbrev pub edit_disk_text : Result SizeError ℤ → Resources → Edit
edit_disk_text (err x) r = refused r
edit_disk_text (ok d) r = grow_disk d r

unfoldable pub edit_disk : Option ℤ → Option Text → Resources → Edit
unfolding parse_size_mb
edit_disk (some d) text r = grow_disk d r
edit_disk none none r = accepted r
edit_disk none (some t) r = edit_disk_text (parse_size_mb t) r

abbrev pub edit_memory_text : Result SizeError ℤ → Resources → Edit
edit_memory_text (err x) r = refused r
edit_memory_text (ok m) r = accepted (record r { memory_mb = m })

unfoldable pub edit_memory : Option ℤ → Option Text → Resources → Edit
unfolding parse_size_mb
edit_memory (some m) text r = accepted (record r { memory_mb = m })
edit_memory none none r = accepted r
edit_memory none (some t) r = edit_memory_text (parse_size_mb t) r

abbrev pub edit_cpu : Option Float64 → Resources → Resources
edit_cpu none r = r
edit_cpu (some c) r = record r { cpu = c }

abbrev pub then_disk : UpdateProjectRequest → Edit → Edit
then_disk req (refused r) = refused r
then_disk req (accepted r) = edit_disk req.disk_mb req.disk r

unfoldable pub edit_resources : UpdateProjectRequest → Resources → Edit
unfolding edit_memory edit_disk
edit_resources req r = then_disk req (edit_memory req.memory_mb req.memory (edit_cpu req.cpu r))

abbrev pub project_has_changes : UpdateProjectRequest → Bool
project_has_changes req =
    is_some req.cpu
    || (is_some req.memory_mb || (is_some req.memory || (is_some req.disk_mb || is_some req.disk)))

pub data ProjectStatus : Type 0 where
  done no_runtime bad_request not_found conflict server_error : ProjectStatus

abbrev pub with_resources : Project → Resources → Project
with_resources p r = record p { resources = r }

-- The object of the store has new resources.
unfoldable pub assign_project : Project → Store → Store
assign_project p s = with_projects s (put s.state.projects p.id p)

abbrev pub is_stopped : InstanceState → Bool
is_stopped InstanceState.stopped = true
is_stopped _ = false

abbrev pub saved_status : Result StoreError (Unit {0}) × Store → ProjectStatus × Store
saved_status (ok u, s) = (done, s)
saved_status (err x, s) = (server_error, s)

-- From the edit on; `resizes` says whether `ResizeInstance` succeeds.
unfoldable pub finish_edit :
    UpdateProjectRequest → Project → Edit → Bool → Env → Store → ProjectStatus × Store
unfolding assign_project update_project
finish_edit req p (refused r) resizes e s = (bad_request, assign_project (with_resources p r) s)
finish_edit req p (accepted r) resizes e s =
    if not (project_has_changes req)
    then (bad_request, s)
    else let t = assign_project (with_resources p r) s in
      if resizes
      then saved_status (update_project (some (with_resources p r)) e t)
      else (server_error, t)

-- `runtime` says whether there is one; `req` is nothing where the body is no JSON of a request.
unfoldable pub handle_project_update :
    Bool → Text → Option UpdateProjectRequest → Bool → Env → Store → ProjectStatus × Store
unfolding get_project get_instance edit_resources finish_edit
handle_project_update runtime id req resizes e s =
    if not runtime then (no_runtime, s) else elim (get_project id s) [
      | err x ↦ (not_found, s)
      | ok p ↦ elim (Records.get_instance p.id s) [
        | none ↦ (not_found, s)
        | some i ↦ if not (is_stopped i.state) then (conflict, s) else elim req [
          | none ↦ (bad_request, s)
          | some r ↦ finish_edit r p (edit_resources r p.resources) resizes e s
        ]
      ]
    ]
