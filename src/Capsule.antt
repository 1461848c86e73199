-- ===== src/Capsule.antt =====
-- internal/capsule: the container of a repository, as internal/capsule/docker/docker.go runs it.
pub mod Arguments
pub mod Docker
pub mod Status
use krellin.Prelude.{ℕ, Bool}
use krellin.Prelude.Text.{Text}

pub record Handle : Type 0 where
  pub id : Text
  pub repo_id : Text
  pub repo_root : Text

-- A number of CPUs or megabytes that is not positive is 0.
pub record Config : Type 0 where
  pub repo_id : Text
  pub repo_root : Text
  pub image_digest : Text
  pub user : Text
  pub network_on : Bool
  pub cpus : ℕ
  pub memory_mb : ℕ
  pub created_at : Text
