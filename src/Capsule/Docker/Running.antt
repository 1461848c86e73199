-- ===== src/Capsule/Docker/Running.antt =====
-- What `Ensure` of internal/capsule/docker/docker.go leaves a container in.
use krellin.Prelude.{◌≡◌, true, not, ◌&&◌, Option, none, some, List, if_both}
use krellin.Prelude.Text.{Text, codes, text_eq, is_empty, trim_space}
use krellin.Capsule.{Config}
use krellin.Capsule.Arguments.{container_name, verb, removal, listing, inspection}
use krellin.Capsule.Docker.{
  Answer, cut, or_empty, does, then_do, create_container, recreated, replaced, reused, inspected,
  found, ensure,
}

-- A call that succeeds leaves the state as wanted.
abbrev pub Leaves : {S : Type 0} → (S → Type 0) → Option Text × S → Type 0
Leaves P (none, s) = P s
Leaves P (some e, s) = Unit

abbrev pub Reports : {S : Type 0} → (S → Type 0) → Answer × S → Type 0
Reports P ((out, none), s) =
    text_eq (trim_space (cut (trim_space out)).0) (codes "true") ≡ true → P s
Reports P ((out, some e), s) = Unit

-- `docker start` starts a container, and `docker inspect` tells whether it runs.
module _ {S : Type 0} (run : List Text → S → Answer × S) (Runs : Text → S → Type 0)
    (starts : (name : Text) (s : S) → Leaves (Runs name) (does run (verb (codes "start") name) s))
    (reports : (name : Text) (s : S) → Reports (Runs name) (run (inspection name) s)) where
  then_do-Leaves :
      (name : Text) (r : Option Text × S) (next : S → Option Text × S)
      → ((s : S) → Leaves (Runs name) (next s))
      → Leaves (Runs name) (then_do run r next)
  then_do-Leaves name (some e, s) next h = tt
  then_do-Leaves name (none, s) next h = h s

  recreated-Leaves :
      (cfg : Config) (name : Text) (s : S) → Leaves (Runs name) (recreated run cfg name s)
  unfolding recreated
  recreated-Leaves cfg name s =
      then_do-Leaves name (create_container run cfg name s) _ (starts name)

  replaced-Leaves :
      (cfg : Config) (name : Text) (s : S) → Leaves (Runs name) (replaced run cfg name s)
  unfolding replaced
  replaced-Leaves cfg name s =
      then_do-Leaves name (does run (verb (codes "stop") name) s) _
        λ s₁. then_do-Leaves name (does run (removal name) s₁) _ λ s₂. recreated-Leaves cfg name s₂

  reused-Leaves :
      (cfg : Config) (name : Text) (seen : Text × Option Text) (s : S)
      → (text_eq (trim_space seen.0) (codes "true") ≡ true → Runs name s)
      → Leaves (Runs name) (reused run cfg name seen s)
  unfolding reused
  reused-Leaves cfg name (running, image) s up =
      if_both (Leaves (Runs name))
        (not (is_empty (or_empty image))
          && (not (is_empty cfg.image_digest) && not (text_eq (or_empty image) cfg.image_digest)))
        _ _ (λ e. replaced-Leaves cfg name s)
        (λ e.
          if_both (Leaves (Runs name)) (text_eq (trim_space running) (codes "true")) _ _ up
            (λ f. starts name s))

  inspected-Leaves :
      (cfg : Config) (name : Text) (a : Answer × S)
      → Reports (Runs name) a
      → Leaves (Runs name) (inspected run cfg name a)
  inspected-Leaves cfg name ((out, some e), s) h = tt
  inspected-Leaves cfg name ((out, none), s) h = reused-Leaves cfg name (cut (trim_space out)) s h

  found-Leaves :
      (cfg : Config) (name : Text) (a : Answer × S) → Leaves (Runs name) (found run cfg name a)
  found-Leaves cfg name ((out, some e), s) = tt
  found-Leaves cfg name ((out, none), s) =
      if_both (Leaves (Runs name)) (is_empty (trim_space out)) _ _
        (λ e. recreated-Leaves cfg name s)
        (λ e. inspected-Leaves cfg name (run (inspection name) s) (reports name s))

  -- Where `docker start` starts a container and `docker inspect` tells the truth about it, the container of the
  -- repository runs whenever `Ensure` succeeds, whether it was missing, stopped, of another image or running.
  pub ensure-Runs :
      (cfg : Config) (s : S) → Leaves (Runs (container_name cfg.repo_id)) (ensure run cfg s)
  unfolding ensure
  ensure-Runs cfg s = found-Leaves cfg _ (run (listing (container_name cfg.repo_id)) s)
