-- ===== src/Tests/ReconcilerExamples.antt =====
-- Two reconciliations of one project.
use goship.Base.{Text, lit, true, [], ◌∷◌, some, get, is_ok, All, ◌≡◌}
use goship.Entities.Project.{Project}
use goship.Reconciler.{HasInstance, create_missing, create_missing_exact}
use goship.Runtime.{ProjectRuntime}
use goship.Mock.{Mock, new_mock, default_fns, mock_runtime}
use goship.Tests.Fixtures.{web}

abbrev mock : ProjectRuntime Mock
mock = mock_runtime (default_fns (lit "i1") 1)

-- Witness.
create_missing_exact_example :
    ((k id : Text)
      → get [] k ≡ some id
      → get (create_missing mock (web ∷ []) [] new_mock).0 k ≡ some id)
    × (((p : Project) (s : Mock) → is_ok (mock.create_instance p s).0 ≡ true)
        → All (HasInstance mock (create_missing mock (web ∷ []) [] new_mock).0) (web ∷ []))
    × (All (HasInstance mock []) (web ∷ [])
        → create_missing mock (web ∷ []) [] new_mock ≡ ([], new_mock))
create_missing_exact_example = create_missing_exact mock (web ∷ []) [] new_mock
