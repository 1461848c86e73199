-- ===== src/Wiring/Safe.antt =====
-- Whatever a session is built from, its capsule is pinned to a digest and mounts no more than its repository.
use mathlib.Core.Path.{subst}
use krellin.Prelude.{
  ℕ, suc, ◌≤◌, ◌≡◌, ◌≢◌, refl, sym, ap, ◌∙◌, true, false, none, some, [], ◌∷◌, ◌++◌, append-nil,
  arith, inl, inr, Bool-cases, Option-cases,
}
use krellin.Prelude.Text.{Text, is_empty, has_prefix}
use krellin.Prelude.Int.{ℤ, pos}
use krellin.Prelude.Result.{Result, ok, err, Result-cases}
use krellin.FilePath.{clean, join_path, is_rooted, parts_of}
use krellin.FilePath.Laws.{clean-is_rooted}
use krellin.Policy.{default_policy, validate_mount}
use krellin.Policy.Mounts.{validate_mount_iff}
use krellin.Config.{Config, has_digest}
use krellin.Config.Defaults.{Complete}
use krellin.Config.Files.{FileSystem}
use krellin.Repo.{Disk, RepoError, abs_path, abs_of, resolve_root, find_root}
use krellin.Wiring.{
  Place, BuildError, Built, limit_of, policy_of, session_of, configure, session_with, Configured,
  config_path_of, name_of, at_root, build_session,
}
use krellin.Wiring.Complete.{Sound, configure-Sound}

-- The working directory is a rooted path, as the system gives it.
abbrev pub Rooted : Disk → Type 0
Rooted disk = (dir : Text) → disk.working_dir ≡ some dir → is_rooted dir ≡ true

rooted-append : (s t : Text) → is_rooted s ≡ true → is_rooted (s ++ t) ≡ true
unfolding is_rooted has_prefix
rooted-append [] t h = cc
rooted-append (c ∷ s) [] h = h
rooted-append (c ∷ s) (d ∷ t) h = h

not_rooted : is_rooted [] ≡ false
unfolding is_rooted has_prefix
not_rooted = refl

joined-is_rooted : (dir p : Text) → is_rooted dir ≡ true → is_rooted (join_path dir p) ≡ true
unfolding join_path is_empty
joined-is_rooted [] p h = cc not_rooted
joined-is_rooted (c ∷ dir) p h =
    clean-is_rooted ((c ∷ dir) ++ 47 ∷ p) (rooted-append (c ∷ dir) (47 ∷ p) h)

abs_path-is_rooted :
    (disk : Disk) (p root : Text) → Rooted disk → abs_path disk p ≡ ok root → is_rooted root ≡ true
unfolding abs_path
abs_path-is_rooted disk p root rooted h = elim (Bool-cases (is_rooted p)) [
  | inl e ↦
      let is : clean p ≡ root = ground arith in
      subst (λ r. is_rooted r ≡ true) is (clean-is_rooted p e)
  | inr e ↦ elim (Option-cases disk.working_dir) [
    | inl f ↦ absurd (ground arith)
    | inr (dir, f) ↦
        let is : join_path dir p ≡ root = ground arith in
        subst (λ r. is_rooted r ≡ true) is (joined-is_rooted dir p (rooted dir f))
  ]
]

resolve_root-is_rooted :
    (disk : Disk) (start root : Text)
    → Rooted disk
    → resolve_root disk start ≡ ok root
    → is_rooted root ≡ true
unfolding resolve_root
resolve_root-is_rooted disk start root rooted h = elim (Result-cases (find_root disk start)) [
  | inl (found, e) ↦ abs_path-is_rooted disk found root rooted (sym (ap (abs_of disk) e) ∙ h)
  | inr (x, e) ↦ absurd (wrong x (sym (ap (abs_of disk) e) ∙ h))
]
  where
    wrong : (x : RepoError) → ◌≡◌ {A = Result RepoError Text} (err x) (ok root) → ⊥
    wrong x e = cc

-- What holds of a session that is built.
pub record Contained (root home : Text) (b : Built) : Type 0 where
  pub mounts : b.setup.repo_root ≡ root
  pub allows : b.policy.repo_root ≡ root
  pub at_home : b.policy.home_dir ≡ home
  pub mount_allowed : validate_mount b.policy b.setup.repo_root ≡ none
  pub pinned : has_digest b.setup.image_digest ≡ true
  pub guarded : b.policy.unsafe ≡ false
  pub some_cpu : 1 ≤ b.setup.cpus
  pub some_memory : 1 ≤ b.setup.memory_mb

session_of-Contained :
    (root home name path : Text) (c : Config)
    → is_rooted root ≡ true
    → Complete c
    → Contained root home (session_of root home name path c)
unfolding session_of policy_of default_policy
session_of-Contained root home name path c rooted complete = record {
  mount_allowed =
      (validate_mount_iff (policy_of root home c) root refl rooted rooted).1
        ([], sym (append-nil (parts_of true root)));
  pinned = complete.pinned;
  mounts = refl;
  allows = refl;
  at_home = refl;
  guarded = refl;
  some_cpu = positive c.cpus complete.cpus_positive;
  some_memory = positive c.memory_mb complete.memory_positive;
}
  where
    positive : (z : ℤ) → (n : ℕ) × (z ≡ pos (suc n)) → 1 ≤ limit_of z
    positive z (n, e) = rw e (omega arith)

module _ {S : Type 0} (files : FileSystem S)
    (resolve_digest : Text → S → Result Text Text × S) where
  session_with-Contained :
      (root home name path : Text) (r : Configured files resolve_digest) (b : Built)
      → is_rooted root ≡ true
      → Sound files resolve_digest r
      → (session_with files resolve_digest root home name path r).0 ≡ ok b
      → Contained root home b
  session_with-Contained root home name path (err x, s) b rooted sound h = cc
  session_with-Contained root home name path (ok c, s) b rooted sound h =
      let same : session_of root home name path c ≡ b = cc in
      subst (Contained root home) same
        (session_of-Contained root home name path c rooted (sound c refl))

  module _ (place : Place) where
    -- Where the working directory is a rooted path, a session that is built is for the root that `ResolveRoot` gives:
    -- this is what its capsule mounts and what its policy allows, it is a rooted path, and the policy's home is that of
    -- the user; the capsule runs an image that is pinned to a digest, has at least one processor and one megabyte, and
    -- is not unsafe, be its configuration read or made.
    pub build_session-Safe :
        (start : Text) (s : S) (b : Built)
        → Rooted place.disk
        → (build_session files resolve_digest place start s).0 ≡ ok b
        → (root : Text) × (resolve_root place.disk start ≡ ok root)
          × (is_rooted root ≡ true)
          × Contained root place.home b
    unfolding build_session
    build_session-Safe start s b rooted h = elim (Result-cases (resolve_root place.disk start)) [
      | inl (root, e) ↦ (
        root,
        e,
        resolve_root-is_rooted place.disk start root rooted e,
        session_with-Contained root place.home (name root) (path root) (set_up root) b
            (resolve_root-is_rooted place.disk start root rooted e)
            (configure-Sound files resolve_digest (path root) s) (sym (ap built e) ∙ h),
      )
      | inr (x, e) ↦ absurd (no_root x (sym (ap built e) ∙ h))
    ]
      where
        name : Text → Text
        name = name_of files resolve_digest place

        path : Text → Text
        path = config_path_of files resolve_digest place

        set_up : Text → Configured files resolve_digest
        set_up root = configure files resolve_digest (path root) s

        built : Result RepoError Text → Result BuildError Built
        built r = (at_root files resolve_digest place r s).0

        no_root : (x : RepoError) → built (err x) ≢ ok b
        no_root x f = cc
