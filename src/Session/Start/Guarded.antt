-- ===== src/Session/Start/Guarded.antt =====
-- The capsule of a session is asked for only when its mount is allowed.
use krellin.Prelude.{◌≡◌, ◌⊎◌, inl, inr, true, false, Option, arith, Option-cases}
use krellin.Prelude.Text.{Text}
use krellin.FilePath.{parts_of, is_rooted}
use krellin.FilePath.Under.{Under}
use krellin.Policy.{Policy, validate_mount}
use krellin.Policy.Mounts.{validate_mount_iff}
use krellin.Capsule.{Config}
use krellin.Session.Start.{manager_ensure, Boot, Notices, Setup, start_session}

module _ {S : Type 0} (ensure : Config → S → Option Text × S) where
  -- With a safe policy and rooted paths: whatever `Start` does to the containers and images, it does only if the
  -- repository that is mounted is the policy's root or lies below it; otherwise no session is started, and no
  -- command is run.
  pub start_session-Guarded :
      (policy : Policy) (setup : Setup) (notices : Notices) (b : Boot S)
      → policy.unsafe ≡ false
      → is_rooted policy.repo_root ≡ true
      → is_rooted setup.repo_root ≡ true
      → b.once_done ≡ false
      → b.has_capsule ≡ true
      → Under (parts_of true setup.repo_root) (parts_of true policy.repo_root)
        ⊎ (((start_session ensure policy setup notices b).outside ≡ b.outside)
            × ((start_session ensure policy setup notices b).started ≡ b.started)
            × ((start_session ensure policy setup notices b).executor_runs ≡ b.executor_runs))
  unfolding start_session manager_ensure
  start_session-Guarded policy setup notices b safe root path first has =
      elim (Option-cases (validate_mount policy setup.repo_root)) [
        | inl e ↦ inl ((validate_mount_iff policy setup.repo_root safe root path).0 e)
        | inr (e, at) ↦ inr (ground arith, ground arith, ground arith)
      ]
