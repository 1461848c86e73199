-- ===== src/Tests/Containers.antt =====
-- The clean-up on two images, sorted by swapping them where the first is older.
use krellin.Prelude.{◌≤◌, true, some, List, [], ◌∷◌, length}
use krellin.Prelude.Int.{pos}
use krellin.Prelude.Text.{Text, codes}
use krellin.Prelude.Result.{ok}
use krellin.Containers.{ImageInfo}
use krellin.Containers.Cleanup.{CleanupPolicy, Times}

abbrev image : Text → Text → ImageInfo
image id time = record {
  id = id;
  repository = [];
  tag = [];
  labels = (codes "krellin.created_at", time) ∷ [];
  size_bytes = 0;
}

-- Times are the lengths of texts, and all images are as new as one another.
abbrev clock : Times
clock = record {
  parse_time = λ text. some (length text);
  parse_duration = λ text. ok (pos 1);
  now = 3;
  sort_newest = λ images. images;
}

AsNew : ImageInfo → ImageInfo → Type 0
AsNew a b = 0 ≤ 1

abbrev policy : CleanupPolicy
policy = record { keep_last_n = pos 1; delete_older_than = codes "1h"; delete_unpinned = true }

abbrev images : List ImageInfo
images = image (codes "a") (codes "t") ∷ image (codes "b") (codes "tt") ∷ []
