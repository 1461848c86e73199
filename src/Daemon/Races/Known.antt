-- ===== src/Daemon/Races/Known.antt =====
-- However calls overlap, the session that a call gives is the one that its id is looked up to.
use mathlib.Core.Path.{subst}
use krellin.Prelude.{
  ℕ, suc, ◌≡◌, ◌≢◌, refl, sym, ap, ◌∙◌, none, some, [], arith, inl, inr, Bool-cases,
}
use krellin.Prelude.Text.{Text, is_empty, text_eq, text_eq_iff}
use krellin.Prelude.Dict.{lookup, insert, lookup-insert}
use krellin.Daemon.{Session, new_daemon, session_id, session, register, launch, numbered, present}
use krellin.Daemon.Ids.{session_id-injective, lookup-insert_same, lookup-insert_other}
use krellin.Daemon.Races.{
  Call, looking, making, failed, made, entered, holding, Shared, set_call, moved, Step, find, miss,
  fail, make, enter, begin, Steps, here, next,
}
use krellin.Daemon.Races.Sound.{
  Fine, id_pending, Apart, Sound, set_call-all, present-Found, Fine-more, Fine-Pending, Fine-wider,
  Listed-wider,
}

module _ (roots : ℕ → Text) (r : Shared) (sound : Sound roots r) (i : ℕ) where
  -- Only one call moves.
  Apart-moved :
      (c : Call)
      → ((j : ℕ) (id : Text) → j ≢ i → id_pending c ≡ some id → id_pending (r.calls j) ≢ some id)
      → Apart (set_call i c r.calls)
  Apart-moved c new a b id apart_ab p q =
      set_call-all
        (λ j y.
          (l : ℕ)
          → j ≢ l
          → id_pending y ≡ some id
          → id_pending (set_call i c r.calls l) ≡ some id
          → ⊥)
        i c r.calls
        (λ l ne p' q'.
          set_call-all (λ l' z. i ≢ l' → id_pending z ≡ some id → ⊥) i c r.calls (λ ne' e. ne' refl)
            (λ l' other ne' e. new l' id other p' e) l ne q')
        (λ j j_other l ne p' q'.
          set_call-all (λ l' z. j ≢ l' → id_pending z ≡ some id → ⊥) i c r.calls
            (λ ne' e. new j id j_other e p') (λ l' other ne' e. sound.apart j l' id ne' p' e) l ne
            q')
        a b apart_ab p q

  -- The tables stay, and the call registers nothing.
  quiet :
      (c : Call)
      → id_pending c ≡ none
      → Fine r.daemon.sessions r.daemon.counter (roots i) c
      → Sound roots (moved r i c r.daemon)
  quiet c idle f = record {
    fine =
        set_call-all (λ j. Fine r.daemon.sessions r.daemon.counter (roots j)) i c r.calls f
          (λ j other. sound.fine j);
    apart = Apart-moved c (λ j id other e. cc);
    above = sound.above;
    listed = sound.listed;
  }

  -- The tables stay but for the counter, and the call has the id of the new number.
  made-Sound :
      Sound roots
        (moved r i (made (numbered (roots i) [] r.daemon).0) (numbered (roots i) [] r.daemon).1)
  unfolding numbered is_empty
  made-Sound = record {
    fine =
        set_call-all (λ j. Fine r.daemon.sessions (suc r.daemon.counter) (roots j)) i _ r.calls
          (
            refl,
            (
              suc r.daemon.counter,
              refl,
              omega arith,
              sound.above (suc r.daemon.counter) (omega arith),
            ),
          )
          (λ j other.
            Fine-more r.daemon.sessions r.daemon.counter (roots j) (r.calls j) (sound.fine j));
    apart = Apart-moved _ (λ j id other e p.
        let (k, same, small, missing) =
          Fine-Pending r.daemon.sessions r.daemon.counter (roots j) id (r.calls j) (sound.fine j)
            p in
        let again : session_id (suc r.daemon.counter) ≡ session_id k = cc in
        omega (arith, session_id-injective (suc r.daemon.counter) k again));
    above = λ k more. sound.above k (omega arith);
    listed = sound.listed;
  }

  -- The call registers its session.
  entered-Sound :
      (s : Session)
      → r.calls i ≡ made s
      → Sound roots (moved r i (entered s) (register (roots i) s r.daemon))
  unfolding register
  entered-Sound s at =
      let (for_root, (k, same, small, missing)) =
        subst (Fine r.daemon.sessions r.daemon.counter (roots i)) at (sound.fine i) in
      record {
        fine =
            set_call-all (λ j. Fine (insert s.id s r.daemon.sessions) r.daemon.counter (roots j)) i
              (entered s) r.calls (for_root, lookup-insert_same s.id s r.daemon.sessions)
              (λ j other.
                Fine-wider r.daemon.sessions r.daemon.counter s missing (roots j) (r.calls j)
                  (λ e. sound.apart j i s.id other e (ap id_pending at)) (sound.fine j));
        apart = Apart-moved (entered s) (λ j id other e. cc);
        above = λ l more.
            lookup-insert_other s.id s r.daemon.sessions (session_id l)
              (λ e. absurd (omega (arith, session_id-injective l k (e ∙ same))))
            ∙ sound.above l more;
        listed = λ root. elim (Bool-cases (text_eq root (roots i))) [
          | inl e ↦
              let here_root : root ≡ roots i = (text_eq_iff root (roots i)).0 e in
              rw (lookup-insert (roots i) root s.id r.daemon.by_repo) (
                rw e
                  (s, for_root ∙ sym here_root, refl, lookup-insert_same s.id s r.daemon.sessions))
          | inr e ↦ rw (lookup-insert (roots i) root s.id r.daemon.by_repo) (
              rw e (
                Listed-wider r.daemon.sessions r.daemon.counter s missing root
                  (lookup root r.daemon.by_repo) (sound.listed root)))
        ];
      }

module _ (roots : ℕ → Text) where
  Step-Sound : {r t : Shared} → Step roots r t → Sound roots r → Sound roots t
  unfolding present launch
  Step-Sound (find r i s at e) sound = quiet roots r sound i (holding s) refl (
      present-Found r.daemon.sessions (roots i) (lookup (roots i) r.daemon.by_repo) s
        (sound.listed (roots i)) e)
  Step-Sound (miss r i at e) sound = quiet roots r sound i making refl tt
  Step-Sound (fail r i at) sound = quiet roots r sound i failed refl tt
  Step-Sound (make r i at) sound = made-Sound roots r sound i
  Step-Sound (enter r i s at) sound = entered-Sound roots r sound i s at
  Step-Sound (begin r i s at) sound =
      let started =
        quiet roots r sound i (holding s) refl
          (subst (Fine r.daemon.sessions r.daemon.counter (roots i)) at (sound.fine i)) in
      record {
        fine = started.fine;
        apart = started.apart;
        above = started.above;
        listed = started.listed;
      }

  Steps-Sound : {r t : Shared} → Steps roots r t → Sound roots r → Sound roots t
  Steps-Sound here sound = sound
  Steps-Sound (next steps step) sound = Step-Sound step (Steps-Sound steps sound)

  -- From an empty daemon, with a factory that leaves the ids to the daemon, and however any number of calls of
  -- EnsureSessionForRepo overlap: the session that a call gives was made for the root that the call asked for, and is
  -- the session that the daemon finds under its id, also where several calls made one for the same root.
  pub Steps-Known :
      (r : Shared)
      → Steps roots (record { daemon = new_daemon; calls = λ i. looking }) r
      → (i : ℕ) (s : Session) → r.calls i ≡ holding s
      → (s.repo_root ≡ roots i) × (session s.id r.daemon ≡ some s)
  unfolding session lookup
  Steps-Known r steps i s at =
      let empty : Sound roots (record { daemon = new_daemon; calls = λ i. looking }) = record {
        fine = λ j. tt;
        apart = λ a b id ne p q. cc;
        above = λ k more. refl;
        listed = λ root. tt;
      } in
      subst (Fine r.daemon.sessions r.daemon.counter (roots i)) at
        ((Steps-Sound steps empty).fine i)
