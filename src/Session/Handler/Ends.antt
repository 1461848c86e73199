-- ===== src/Session/Handler/Ends.antt =====
-- How the actions of internal/session/handler.go end.
use mathlib.Core.Path.{subst}
use krellin.Prelude.{
  ◌≡◌, refl, ◌∙◌, ◌⊎◌, inl, inr, true, false, Option, none, some, List, [], ◌∷◌, ◌++◌,
}
use krellin.Prelude.Text.{Text, codes, is_empty, trim_space}
use krellin.Prelude.Result.{Result, ok, err}
use krellin.Agents.{Provider}
use krellin.Config.{Config, has_digest}
use krellin.Config.Files.{
  FileRead, contents, FileError, FileSystem, load, loaded, update_image_digest,
}
use krellin.Config.Files.Updated.{WriteFailed, Updated, ReadsBack, update_image_digest-Updated}
use krellin.Containers.{CapsuleInfo}
use krellin.Session.Actions.{
  Plain, network_toggle, reset, freeze, run_command, apply_patch, revert, containers, agents,
  change_agents,
}
use krellin.Session.Context.{add_chat_turn}
use krellin.Session.Handler.{
  Out, freeze_created, agent_message, secret_of, Parts, AgentParts, Held, Handled, then_freeze,
  if_part, announced, pinned_by, handle_freeze, after_reset, handle_reset, shown_diff, after_patch,
  listed, handle_plain, quietly, patched, reverted, inventoried,
}

-- An error comes with no event.
abbrev pub Quiet : {S : Type 0} → Handled S → Type 0
Quiet (some e, outs, s) = outs ≡ []
Quiet (none, outs, s) = Unit

module _ {S : Type 0} (parts : Parts S) where
  announced-Quiet : (digest : Text) (r : Option Text × S) → Quiet (announced parts digest r)
  announced-Quiet digest (some e, s) = refl
  announced-Quiet digest (none, s) = tt

  then_freeze-Quiet :
      (next : Text → S → Handled S) (r : Result Text Text × S)
      → ((image : Text) (s : S) → Quiet (next image s))
      → Quiet (then_freeze parts next r)
  then_freeze-Quiet next (err e, s) h = refl
  then_freeze-Quiet next (ok image, s) h = h image s

  handle_freeze-Quiet : (mode : Text) (s : S) → Quiet (handle_freeze parts mode s)
  unfolding handle_freeze
  handle_freeze-Quiet mode s = then_freeze-Quiet _ (parts.commit mode s) λ ref s₁.
      then_freeze-Quiet _ (if_part parts parts.push ref s₁) λ published s₂.
        then_freeze-Quiet _ (if_part parts parts.resolve_digest published s₂)
          λ digest s₃. announced-Quiet digest (pinned_by parts parts.update_image digest s₃)

  quietly-Quiet : (r : Option Text × S) → Quiet (quietly parts r)
  quietly-Quiet (some e, s) = refl
  quietly-Quiet (none, s) = tt

  listed-Quiet : {A : Type 0} (out : A → Out) (r : Result Text A × S) → Quiet (listed parts out r)
  listed-Quiet out (err e, s) = refl
  listed-Quiet out (ok a, s) = tt

  shown_diff-Quiet : (r : Result Text (Text × List Text) × S) → Quiet (shown_diff parts r)
  shown_diff-Quiet (err e, s) = refl
  shown_diff-Quiet (ok (text, files), s) = tt

  after_patch-Quiet : (r : Option Text × S) → Quiet (after_patch parts r)
  after_patch-Quiet (some e, s) = refl
  after_patch-Quiet (none, s) = shown_diff-Quiet (parts.diff s)

  after_reset-Quiet : (r : Option Text × S) → Quiet (after_reset parts r)
  after_reset-Quiet (some e, s) = refl
  after_reset-Quiet (none, s) = tt

  patched-Quiet :
      (apply : Option (Text → S → Option Text × S)) (patch : Text) (s : S)
      → Quiet (patched parts apply patch s)
  patched-Quiet none patch s = refl
  patched-Quiet (some apply) patch s = after_patch-Quiet (apply patch s)

  reverted-Quiet :
      (revert_all : Option (S → Option Text × S)) (s : S) → Quiet (reverted parts revert_all s)
  reverted-Quiet none s = refl
  reverted-Quiet (some revert_all) s = quietly-Quiet (revert_all s)

  inventoried-Quiet :
      (list : Option (S → Result Text (List CapsuleInfo) × S)) (s : S)
      → Quiet (inventoried parts list s)
  inventoried-Quiet none s = refl
  inventoried-Quiet (some list) s = listed-Quiet _ (list s)

  -- An action other than a prompt that ends in an error, in any of its steps, has emitted no event.
  handle_plain-Quiet : (body : Plain) (s : S) → Quiet (handle_plain parts body s)
  unfolding handle_plain
  handle_plain-Quiet (network_toggle on) s = quietly-Quiet (parts.set_network on s)
  handle_plain-Quiet (reset preserve) s =
      unfold handle_reset in after_reset-Quiet (parts.reset_capsule preserve s)
  handle_plain-Quiet (freeze mode) s = handle_freeze-Quiet mode s
  handle_plain-Quiet (run_command command) s = quietly-Quiet (parts.run_command command s)
  handle_plain-Quiet (apply_patch patch) s = patched-Quiet parts.apply_patch patch s
  handle_plain-Quiet revert s = reverted-Quiet parts.revert s
  handle_plain-Quiet containers s = inventoried-Quiet parts.list_capsules s
  handle_plain-Quiet agents s = listed-Quiet _ (parts.list_agents s)
  handle_plain-Quiet (change_agents request) s = listed-Quiet _ (parts.serve_agents request s)

-- The updater of a session, on the configuration file of the repository; the words for its errors are a parameter.
abbrev pub reworded : {S : Type 0} → (FileError → Text) → Option FileError × S → Option Text × S
reworded words (none, s) = (none, s)
reworded words (some e, s) = (some (words e), s)

abbrev pub updating :
    {S : Type 0} → FileSystem S → Text → (FileError → Text) → Text → S → Option Text × S
updating files path words digest s = reworded words (update_image_digest files path digest s)

module _ {S : Type 0} (parts : Parts S) (files : FileSystem S) (path : Text) where
  abbrev File : S → FileRead
  File s = files.read_file path s

  -- What a freeze that began with the file in this way has told, and left in it.
  abbrev pub Pins : FileRead → Handled S → Type 0
  Pins old (some e, outs, s) = (outs ≡ []) × ((File s ≡ old) ⊎ WriteFailed files path s)
  Pins old (none, outs, s) =
      (digest : Text) × (c : Config) × (outs ≡ freeze_created digest ∷ [])
      × (loaded files old ≡ ok c)
      × (has_digest digest ≡ true)
      × (File s ≡ contents (files.marshal (record c { image = digest })))

  -- The commit, the publication and the resolution leave the file of the configuration alone.
  pub record LeaveFile : Type 0 where
    pub commits : (mode : Text) (s : S) → File (parts.commit mode s).1 ≡ File s
    pub pushes : (image : Text) (s : S) → File (if_part parts parts.push image s).1 ≡ File s
    pub resolves :
        (image : Text) (s : S) → File (if_part parts parts.resolve_digest image s).1 ≡ File s

module _ {S : Type 0} (parts : Parts S) (files : FileSystem S) (path : Text)
    (words : FileError → Text) (leave : LeaveFile parts files path)
    (reads_back : ReadsBack files path) where
  abbrev Ends : FileRead → Handled S → Type 0
  Ends old = Pins parts files path old

  then_freeze-Pins :
      (old : FileRead) (next : Text → S → Handled S) (r : Result Text Text × S)
      → files.read_file path r.1 ≡ old
      → ((image : Text) (s : S) → files.read_file path s ≡ old → Ends old (next image s))
      → Ends old (then_freeze parts next r)
  then_freeze-Pins old next (err e, s) p h = (refl, inl p)
  then_freeze-Pins old next (ok image, s) p h = h image s p

  announced-Pins :
      (old : FileRead) (digest : Text) (s : S) (r : Option FileError × S)
      → files.read_file path s ≡ old
      → Updated files path digest s r
      → Ends old (announced parts digest (reworded words r))
  unfolding load
  announced-Pins old digest s (some e, t) p (inl same) = (refl, inl (rw same p))
  announced-Pins old digest s (some e, t) p (inr failed) = (refl, inr failed)
  announced-Pins old digest s (none, t) p (c, read, pinned, file) =
      (digest, c, refl, subst (λ f. loaded files f ≡ ok c) p read, pinned, file)

  -- Where the updater of the session is that of the configuration file, a writing of a file that ends with no error is
  -- read back, and the commit, the publication and the resolution leave that file alone: a freeze that succeeds tells
  -- one event, with an image that is pinned by a digest, and the file then holds the configuration that it held
  -- before with that image in it; one that fails, in whatever step, tells nothing, and the file is as it was unless
  -- it was the writing of it that failed.
  pub handle_freeze-Pins :
      (mode : Text) (s : S)
      → parts.update_image ≡ some (updating files path words)
      → Pins parts files path (files.read_file path s) (handle_freeze parts mode s)
  unfolding handle_freeze
  handle_freeze-Pins mode s has =
      let old = files.read_file path s in
      rw has (
        then_freeze-Pins old _ (parts.commit mode s) (leave.commits mode s) λ ref s₁ p₁.
          then_freeze-Pins old _ (if_part parts parts.push ref s₁) (leave.pushes ref s₁ ∙ p₁)
            λ published s₂ p₂.
              then_freeze-Pins old _ (if_part parts parts.resolve_digest published s₂)
                (leave.resolves published s₂ ∙ p₂)
                λ digest s₃ p₃.
                  announced-Pins old digest s₃ _ p₃
                    (update_image_digest-Updated files path reads_back digest s₃))

-- The last event is a message to the user.
abbrev Noticed : List Out → Type 0
Noticed outs = (text : Text) × (earlier : List Out) × (outs ≡ earlier ++ agent_message text ∷ [])

module _ {S : Type 0} (parts : Parts S) where
  -- The conversation is as it was, and then a prompt with no error ends with a message to the user; or the agent ran
  -- and answered, what it told is what is told, and the request and that answer are remembered.
  abbrev pub Told : Text → Held S → Handled (Held S) → Type 0
  Told content old (e, outs, h) =
      ((h.context ≡ old.context) × (e ≡ none → Noticed outs))
      ⊎ ((agent : AgentParts S) × (p : Provider) × (answer : Text) × (parts.agent ≡ some agent)
          × (agent.resolve_provider old.outside ≡ ok p)
          × (agent.run_with_tools p (secret_of parts agent p old.outside)
                (agent.build_prompt content old.context old.outside) content old.outside
              ≡ (ok answer, outs, h.outside))
          × (is_empty (trim_space answer) ≡ false)
          × (e ≡ none)
          × (h.context
              ≡ add_chat_turn (record { role = codes "assistant"; content = answer })
                  (add_chat_turn (record { role = codes "user"; content = content }) old.context)))
