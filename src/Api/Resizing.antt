-- ===== src/Api/Resizing.antt =====
-- A disk never shrinks, and what a refused resize leaves behind.
use goship.Base.{
  Text, ℕ, Bool, true, false, Option, none, some, is_some, get, get-put_self, Result, ok, err, ℤ,
  lt_ℤ, ◌≡◌, refl, ◌∙◌, arith, Bool-cases, inl, inr,
}
use goship.Entities.Name.{NameError, validate_project_name}
use goship.Entities.Resources.{Resources}
use goship.Entities.Project.{Project}
use goship.Entities.Instance.{ProjectInstance}
use goship.Size.{SizeError, parse_size_mb}
use goship.Store.Disk.{
  Store, StoreError, Env, WriteOutcome, written, marshal_fails, write_fails, save,
}
use goship.Store.Projects.{get_project, update_project}
use goship.Store.Records
use goship.Store.Records.{get_instance}
use goship.Api.Projects.{
  UpdateProjectRequest, Edit, accepted, refused, resources_of_edit, grow_disk, edit_disk_text,
  edit_disk, edit_memory_text, edit_memory, edit_cpu, then_disk, edit_resources,
  project_has_changes, bad_request, with_resources, assign_project, saved_status, finish_edit,
  is_stopped, handle_project_update,
}

-- The disk of the second is not smaller.
abbrev pub Grows : Resources → Resources → Type 0
Grows r q = lt_ℤ q.disk_mb r.disk_mb ≡ false

Grows-refl : (r : Resources) → Grows r r
Grows-refl r = ground arith

grow_disk-Grows : (d : ℤ) (r : Resources) → Grows r (resources_of_edit (grow_disk d r))
grow_disk-Grows d r = elim (Bool-cases (lt_ℤ d r.disk_mb)) [
  | inl t ↦ rw (t, grow_disk) (Grows-refl r)
  | inr f ↦ rw (f, grow_disk) f
]

edit_disk-Grows :
    (d : Option ℤ) (t : Option Text) (r : Resources) → Grows r (resources_of_edit (edit_disk d t r))
unfolding edit_disk
edit_disk-Grows (some d) t r = grow_disk-Grows d r
edit_disk-Grows none none r = Grows-refl r
edit_disk-Grows none (some t) r = go (parse_size_mb t)
  where
    go : (v : Result SizeError ℤ) → Grows r (resources_of_edit (edit_disk_text v r))
    go (err x) = Grows-refl r
    go (ok d) = grow_disk-Grows d r

edit_memory-disk :
    (m : Option ℤ) (t : Option Text) (r : Resources)
    → (resources_of_edit (edit_memory m t r)).disk_mb ≡ r.disk_mb
unfolding edit_memory
edit_memory-disk (some m) t r = refl
edit_memory-disk none none r = refl
edit_memory-disk none (some t) r = go (parse_size_mb t)
  where
    go : (v : Result SizeError ℤ) → (resources_of_edit (edit_memory_text v r)).disk_mb ≡ r.disk_mb
    go (err x) = refl
    go (ok m) = refl

edit_cpu-disk : (c : Option ℕ) (r : Resources) → (edit_cpu c r).disk_mb ≡ r.disk_mb
edit_cpu-disk none r = refl
edit_cpu-disk (some c) r = refl

edit_resources-Grows :
    (req : UpdateProjectRequest) (r : Resources)
    → Grows r (resources_of_edit (edit_resources req r))
unfolding edit_resources
edit_resources-Grows req r =
    let e = edit_memory req.memory_mb req.memory (edit_cpu req.cpu r) in
    go e (edit_memory-disk req.memory_mb req.memory (edit_cpu req.cpu r) ∙ edit_cpu-disk req.cpu r)
  where
    go :
        (e : Edit)
        → (resources_of_edit e).disk_mb ≡ r.disk_mb
        → Grows r (resources_of_edit (then_disk req e))
    go (refused q) h = ground (arith, h, Grows-refl r)
    go (accepted q) h = rw (← h) (edit_disk-Grows req.disk_mb req.disk q)

-- The project stands under the ID, with these resources.
pub record Holds (id : Text) (r : Resources) (s : Store) : Type 0 where
  pub project : Project
  pub there : get s.state.projects id ≡ some project
  pub same : project.resources ≡ r

assign-Holds : (p : Project) (s : Store) → Holds p.id p.resources (assign_project p s)
unfolding assign_project
assign-Holds p s = record { project = p; there = get-put_self s.state.projects p.id p; same = refl }

update_project-Holds :
    (p : Project) (e : Env) (s : Store)
    → Holds p.id p.resources s
    → Holds p.id p.resources (update_project (some p) e s).1
unfolding update_project save
update_project-Holds p e s h =
    go (validate_project_name p.name) refl (is_some (get s.state.projects p.id)) refl e.io
  where
    go :
        (v : Result NameError (Unit {0}))
        → validate_project_name p.name ≡ v
        → (b : Bool) → is_some (get s.state.projects p.id) ≡ b
        → (io : WriteOutcome)
        → Holds p.id p.resources (update_project (some p) (record e { io = io }) s).1
    go (err x) ev b eb io = rw (ev, update_project) h
    go (ok u) ev false eb io = rw (ev, eb, update_project) h
    go (ok u) ev true eb written =
        rw (ev, eb, update_project)
          (record {
            project = record p { updated_at = e.now };
            there = get-put_self s.state.projects p.id _;
            same = refl;
          })
    go (ok u) ev true eb marshal_fails =
        rw (ev, eb, update_project)
          (record {
            project = record p { updated_at = e.now };
            there = get-put_self s.state.projects p.id _;
            same = refl;
          })
    go (ok u) ev true eb (write_fails f) =
        rw (ev, eb, update_project)
          (record {
            project = record p { updated_at = e.now };
            there = get-put_self s.state.projects p.id _;
            same = refl;
          })

saved_status-Holds :
    (id : Text) (r : Resources) (x : Result StoreError (Unit {0}) × Store)
    → Holds id r x.1
    → Holds id r (saved_status x).1
saved_status-Holds id r (ok u, s) h = h
saved_status-Holds id r (err x, s) h = h

finish_edit-Holds :
    (req : UpdateProjectRequest) (p : Project) (ed : Edit) (resizes : Bool) (e : Env) (s : Store)
    → project_has_changes req ≡ true
    → Holds p.id (resources_of_edit ed) (finish_edit req p ed resizes e s).1
unfolding finish_edit
finish_edit-Holds req p (refused r) resizes e s c = assign-Holds (with_resources p r) s
finish_edit-Holds req p (accepted r) false e s c =
    rw (c, finish_edit) (assign-Holds (with_resources p r) s)
finish_edit-Holds req p (accepted r) true e s c =
    rw (c, finish_edit)
      (saved_status-Holds p.id r _
        (update_project-Holds (with_resources p r) e _ (assign-Holds (with_resources p r) s)))

-- A stopped project with a VM, and a request that can be read and names some resource. Whatever the
-- reply is, the state has the resources that the handler had set when it ended, and their disk is
-- not smaller than it was. A request that is refused half way gets a bad request, and yet what had
-- been set stays.
pub handle_project_update_exact :
    (id : Text) (p : Project) (i : ProjectInstance) (req : UpdateProjectRequest) (resizes : Bool)
    (e : Env) (s : Store)
    → get_project id s ≡ ok p
    → Records.get_instance p.id s ≡ some i
    → is_stopped i.state ≡ true
    → project_has_changes req ≡ true
    → let t = handle_project_update true id (some req) resizes e s in
      let ed = edit_resources req p.resources in
      Holds p.id (resources_of_edit ed) t.1
      × Grows p.resources (resources_of_edit ed)
      × ((r : Resources) → ed ≡ refused r → (t.0 ≡ bad_request) × Holds p.id r t.1)
unfolding handle_project_update finish_edit
handle_project_update_exact id p i req resizes e s known vm stopped changed =
    let ed = edit_resources req p.resources in
    (
      rw (known, handle_project_update)
          (rw vm (rw stopped (finish_edit-Holds req p ed resizes e s changed))),
      edit_resources-Grows req p.resources,
      λ r no.
          rw (known, handle_project_update)
            (rw vm (rw stopped (rw no (refl, assign-Holds (with_resources p r) s)))),
    )
