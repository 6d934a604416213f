-- ===== src/Tests/StoreExamples.antt =====
-- A state file with two projects, opened, used and opened again.
use goship.Base.{
  Text, lit, text_beq, text_ne, ◌≡◌, ◌≢◌, refl, subst, false, [], ◌∷◌, none, some, get, put, ok,
  err, is_ok, pos, contains_rune, find,
}
use goship.Entities.Name.{validate_path_component, validate_project_name}
use goship.Entities.Project.{RuntimeType}
use goship.Entities.Instance.{ProjectInstance, InstanceState}
use goship.Entities.LocalState.{new_local_state, get_project_apps}
use goship.Store.Disk.{Store, absent, project_exists, marshal_failed, save, load, new_store}
use goship.Store.Projects.{create_project, get_project, delete_project}
use goship.Store.Records.{returns}
use goship.Store.Requests.{create, perform, start, call}
use goship.Store.Keeping.{Sound}
use goship.Store.Loading.{reloaded}
use goship.Store.Restart.{restart_after_call, new_store-Sound}
use goship.Store.Histories.{History-Sound}
use goship.Store.Names.{IsConsistent, delete_project_exact}
use goship.Store.Uniqueness.{create_project-IsConsistent}
use goship.Tests.Fixtures.{small, works, fails, dir, empty_store, web, one_project}
use goship.Store.Orphans.{delete_project_orphans}

create_web :
    (create_project (lit "web") RuntimeType.qemu small (lit "p1") works empty_store)
    ≡ (ok web, one_project)
unfolding create_project find validate_path_component validate_project_name save contains_rune
    text_beq put
create_web = refl

empty_store-opens : new_store dir absent 0 ≡ ok empty_store
unfolding new_store load new_local_state
empty_store-opens = refl

create_web-performs :
    perform (create (lit "web") RuntimeType.qemu small (lit "p1")) works empty_store
    ≡ returns (none, one_project)
unfolding perform
create_web-performs = rw create_web refl

no_projects-IsConsistent : IsConsistent empty_store.state.projects
unfolding get
no_projects-IsConsistent = record {
  is_map = tt;
  keyed = λ k p e. cc;
  unique = λ j k p q gj gk n. cc;
}

free_id : get empty_store.state.projects (lit "p1") ≡ none
unfolding get
free_id = refl

one_project-IsConsistent : IsConsistent one_project.state.projects
one_project-IsConsistent =
    subst (λ r. IsConsistent r.1.state.projects) create_web
      (create_project-IsConsistent (lit "web") RuntimeType.qemu small (lit "p1") works empty_store
        free_id no_projects-IsConsistent)

web-there : get one_project.state.projects (lit "p1") ≡ some web
unfolding get text_beq
web-there = refl

web-known : get_project (lit "web") one_project ≡ ok web
unfolding get_project find get text_beq
web-known = refl

web-has_id : web.id ≢ lit ""
web-has_id e = cc

create_twice :
    (create_project (lit "web") RuntimeType.qemu small (lit "p2") works one_project).0
    ≡ err project_exists
unfolding create_project find validate_path_component validate_project_name save contains_rune
    text_beq put
create_twice = refl

create_unsaved :
    (create_project (lit "web") RuntimeType.qemu small (lit "p1") fails empty_store).0
    ≡ err marshal_failed
unfolding create_project find validate_path_component validate_project_name save contains_rune
    text_beq put
create_unsaved = refl

-- The VM of `web`, under its own ID.
abbrev vm : ProjectInstance
vm = record {
  id = lit "i1";
  project_id = lit "p1";
  node_id = lit "n1";
  state = InstanceState.running;
  ip_address = lit "10.0.0.2";
  ssh_port = pos 22;
  domain_name = lit "goship-web";
  domain_uuid = lit "u1";
  topology = none;
  error = [];
  created_at = 7;
  updated_at = 7;
}

abbrev with_vm : Store
with_vm = record one_project {
  state = record one_project.state { instances = (lit "i1", vm) ∷ [] };
}

web-known_with_vm : get_project (lit "web") with_vm ≡ ok web
unfolding get_project find get text_beq
web-known_with_vm = refl

vm-there : get with_vm.state.instances (lit "i1") ≡ some vm
unfolding get text_beq
vm-there = refl

other_key : lit "i1" ≢ lit "p1"
unfolding text_beq
other_key e = text_ne _ _ refl e

restart_after_call_example :
    new_store dir one_project.file 9
    ≡ ok (record one_project { state = reloaded one_project.state })
restart_after_call_example =
    restart_after_call dir absent 0 9 empty_store empty_store one_project
      (create (lit "web") RuntimeType.qemu small (lit "p1")) works empty_store-opens start free_id
      create_web-performs

History-Sound_example : Sound one_project
History-Sound_example = History-Sound (new_store-Sound dir absent 0 empty_store empty_store-opens) (
    call (create (lit "web") RuntimeType.qemu small (lit "p1")) works start free_id
      create_web-performs)

delete_project_exact_example :
    let t = (delete_project (lit "web") works one_project).1 in
    (get t.state.projects (lit "p1") ≡ none)
    × (get_project_apps t.state (lit "p1") ≡ [])
    × ((j : Text) → j ≢ lit "p1" → get t.state.projects j ≡ get one_project.state.projects j)
delete_project_exact_example =
    delete_project_exact one_project one_project-IsConsistent (lit "web") web works web-known
      web-has_id

create_project-IsConsistent_example :
    IsConsistent
      (create_project
        (lit "web")
        RuntimeType.qemu
        small
        (lit "p1")
        works
        empty_store).1.state.projects
create_project-IsConsistent_example =
    create_project-IsConsistent (lit "web") RuntimeType.qemu small (lit "p1") works empty_store
      free_id no_projects-IsConsistent

delete_project_orphans_example :
    ((delete_project (lit "web") works with_vm).0 ≡ ok tt)
    × (is_ok (new_store dir (delete_project (lit "web") works with_vm).1.file 9) ≡ false)
delete_project_orphans_example =
    delete_project_orphans with_vm one_project-IsConsistent (lit "web") web works (lit "i1") vm dir
      9 web-known_with_vm web-has_id refl vm-there refl other_key
