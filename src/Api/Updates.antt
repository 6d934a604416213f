-- ===== src/Api/Updates.antt =====
-- How an update of an app ends: what stands in the store afterwards, rejected requests included.
use goship.Base.{text_eq}
use goship.Entities.Project.{Project}
use goship.Entities.App.{AppSpec}
use goship.Entities.LocalState
use goship.Entities.LocalState.{LocalState}
use goship.Store.Disk.{Store}
use goship.Api.Apps.{UpdateAppRequest, set_first, set_rest, policy_of, with_policy}

-- The app of an accepted request.
abbrev pub updated : UpdateAppRequest → AppSpec → AppSpec
updated req app = set_rest req (with_policy (policy_of req.restart_policy) (set_first req app))
