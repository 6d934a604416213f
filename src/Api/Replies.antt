-- ===== src/Api/Replies.antt =====
-- internal/api/server.go and response.go: the replies of the handlers, and the state that they
-- share: the store, the routes and the runtime. The texts of errors are not modelled.
use goship.Base.{
  Text, ℕ, Bool, List, Option, none, some, get, Result, ok, err, ◌>>=◌, ◌>>◌, require,
}
use goship.Entities.Project.{Project}
use goship.Entities.Instance.{ProjectInstance}
use goship.Entities.App.{AppSpec}
use goship.Store.Disk.{Store, StoreError}
use goship.Store.Projects.{get_project}
use goship.Store.Records
use goship.Store.Records.{get_instance, put_instance}
use goship.Api.Apps.{Server}
use goship.Runtime.{ProjectRuntime}

-- The errors that `writeError` is called with.
pub data ApiError : Type 0 where
  bad_request not_found conflict server_error no_runtime gateway_timeout : ApiError

abbrev pub status_code : ApiError → ℕ
status_code bad_request = 400
status_code not_found = 404
status_code conflict = 409
status_code server_error = 500
status_code no_runtime = 503
status_code gateway_timeout = 504

pub record ProjectResponse : Type 0 where
  pub project : Project
  pub vm : Option ProjectInstance
  pub apps : List AppSpec

pub record World (R : Type 0) : Type 0 where
  pub server : Server
  pub runtime : R

module _ {R : Type 0} where
  abbrev pub with_store : World R → Store → World R
  with_store w s = record w { server = record w.server { store = s } }

  -- A step of a handler: it replies and ends, or the handler goes on.
  abbrev pub then_do {ℓ κ} :
      {A : Type ℓ} {B : Type κ}
      → Result ApiError A
      → (A → World R → Result ApiError B × World R)
      → World R
      → Result ApiError B × World R
  then_do (err x) f w = (err x, w)
  then_do (ok a) f w = f a w

-- `GetProject` with the reply if there is none.
abbrev pub or_not_found {ℓ} : {A : Type ℓ} → Result StoreError A → Result ApiError A
or_not_found (err x) = err not_found
or_not_found (ok a) = ok a

abbrev pub some_or_not_found {ℓ} : {A : Type ℓ} → Option A → Result ApiError A
some_or_not_found none = err not_found
some_or_not_found (some a) = ok a

unfoldable pub known_project : Text → Store → Result ApiError Project
unfolding get_project
known_project id s = or_not_found (get_project id s)

pub record Vm : Type 0 where
  pub project : Project
  pub machine : ProjectInstance

abbrev pub vm_or_not_found : Project → Option ProjectInstance → Result ApiError Vm
vm_or_not_found p none = err not_found
vm_or_not_found p (some i) = ok (record { project = p; machine = i })

abbrev pub vm_of : Store → Project → Result ApiError Vm
vm_of s p = vm_or_not_found p (Records.get_instance p.id s)

-- The start of the handlers that need a running VM: the runtime, the project, its instance.
unfoldable pub known_vm : Bool → Text → Store → Result ApiError Vm
unfolding known_project get_instance
known_vm runtime id s = do require runtime no_runtime; p ← known_project id s; vm_of s p

abbrev pub or_server_error {ℓ κ} : {E : Type ℓ} {A : Type κ} → Result E A → Result ApiError A
or_server_error (err x) = err server_error
or_server_error (ok a) = ok a

module _ {R : Type 0} (rt : ProjectRuntime R) where
  -- The object of the store is the one that the runtime holds: what a call made of it.
  abbrev pub shared : Text → World R → World R
  shared id w = with_store w (put_instance (rt.object id w.runtime) w.server.store)

  -- A call of the runtime about an instance.
  abbrev pub call_runtime {ℓ} : {A : Type ℓ} → Text → (R → A × R) → World R → A × World R
  call_runtime id f w = let r = f w.runtime in (r.0, shared id (record w { runtime = r.1 }))

  abbrev pub load_vm : ProjectInstance → World R → World R
  load_vm i w = record w { runtime = rt.load_instance i w.runtime }

-- The instance and the project of a handler are the objects of the store, under their IDs.
abbrev pub or_this {ℓ} : {A : Type ℓ} → A → Option A → A
or_this a none = a
or_this a (some b) = b

abbrev pub instance_now : ProjectInstance → Store → ProjectInstance
instance_now i s = or_this i (get s.state.instances i.id)

abbrev pub project_now : Project → Store → Project
project_now p s = or_this p (get s.state.projects p.id)
