-- ===== src/Patch/Book/Prepared.antt =====
-- The first loop of `Apply` and the notes that it takes.
use mathlib.Core.Path.{subst}
use krellin.Prelude.{
  ◌≡◌, refl, sym, ◌∙◌, inl, inr, none, some, List, [], ◌∷◌, ◌++◌, arith, In, Option-cases,
}
use krellin.Prelude.Text.{Text}
use krellin.Prelude.Result.{Result, ok, err, Result-cases}
use krellin.Prelude.Dict.{
  Dict, lookup, insert, lookup-insert, In-insert, In-insert_old, In-insert_new, In-lookup,
}
use krellin.FilePath.{join_path}
use krellin.Patch.{PatchError, read_failed, Hunk}
use krellin.Patch.Parse.{hunks_of}
use krellin.Patch.Apply.{apply_hunks}
use krellin.Patch.Book.{Disk, read_file, Bookkeeper, remember, prepare}
use krellin.Patch.Book.Restore.{Noted}

-- A file that is not noted yet is on the disk as it was at first.
abbrev pub Fresh : Text → Disk → Disk → Dict Text → List Text → Type 0
Fresh root d₀ d originals files =
    (file : Text)
    → In file files
    → lookup file originals ≡ none
    → read_file d (join_path root file) ≡ read_file d₀ (join_path root file)

remember-none :
    (file orig : Text) (m : Dict Text)
    → lookup file m ≡ none
    → remember file orig m ≡ insert file orig m
remember-none file orig m h = rw (h, remember)

remember-some :
    (file orig v : Text) (m : Dict Text) → lookup file m ≡ some v → remember file orig m ≡ m
remember-some file orig v m h = rw (h, remember)

In-remember : (file orig : Text) (m : Dict Text) → (o : Text) × In (file, o) (remember file orig m)
In-remember file orig m = elim (Option-cases (lookup file m)) [
  | inl e ↦ (orig, rw (remember-none file orig m e) (In-insert file orig m e))
  | inr (v, e) ↦ (v, rw (remember-some file orig v m e) (In-lookup file v m e))
]

In-remember_old :
    (file orig f o : Text) (m : Dict Text) → In (f, o) m → In (f, o) (remember file orig m)
In-remember_old file orig f o m at = elim (Option-cases (lookup file m)) [
  | inl e ↦ rw (remember-none file orig m e) (In-insert_old file orig f o m e at)
  | inr (v, e) ↦ rw (remember-some file orig v m e) at
]

Noted-remember :
    (root : Text) (d₀ : Disk) (file orig : Text) (m : Dict Text)
    → (lookup file m ≡ none → read_file d₀ (join_path root file) ≡ some orig)
    → Noted root d₀ m
    → Noted root d₀ (remember file orig m)
Noted-remember root d₀ file orig m new noted f o at = elim (Option-cases (lookup file m)) [
  | inl e ↦ elim (In-insert_new file orig f o m (rw (remember-none file orig m e) at at)) [
    | inl (same, there) ↦ rw (same, there) (new e)
    | inr old ↦ noted f o old
  ]
  | inr (v, e) ↦ noted f o (rw (remember-some file orig v m e) at at)
]

lookup-remember :
    (file orig f : Text) (m : Dict Text)
    → lookup f (remember file orig m) ≡ none
    → lookup f m ≡ none
lookup-remember file orig f m h = elim (Option-cases (lookup file m)) [
  | inl e ↦
      let k : lookup f (insert file orig m) ≡ none = rw (remember-none file orig m e) at h in
      ground (arith, lookup-insert file f orig m)
  | inr (v, e) ↦ rw (remember-some file orig v m e) at h
]

-- What the first loop of `Apply` has done.
pub record Prepared (d₀ : Disk) (b : Bookkeeper) (files : List Text)
    (r : Result PatchError (Dict Text) × Bookkeeper) : Type 0 where
  pub same_root : r.1.root ≡ b.root
  pub noted : Noted b.root d₀ r.1.originals
  pub kept : (f o : Text) → In (f, o) b.originals → In (f, o) r.1.originals
  pub all_noted :
      (contents : Dict Text)
      → r.0 ≡ ok contents
      → (f : Text) → In f files
      → (o : Text) × In (f, o) r.1.originals

-- The three ways of one round.
abbrev note : Bookkeeper → Text → Text → Bookkeeper
note b file orig = record b { originals = remember file orig b.originals }

module _ (d : Disk) (hunks : Dict (List Hunk)) (file : Text) (files : List Text) (b : Bookkeeper)
    (contents : Dict Text) where
  prepare_unread :
      read_file d (join_path b.root file) ≡ none
      → prepare d hunks (file ∷ files) b contents ≡ (err read_failed, b)
  unfolding prepare
  prepare_unread e = rw (e, prepare)

  prepare_bad :
      (orig : Text) (x : PatchError)
      → read_file d (join_path b.root file) ≡ some orig
      → apply_hunks orig (hunks_of file hunks) ≡ err x
      → prepare d hunks (file ∷ files) b contents ≡ (err x, note b file orig)
  unfolding prepare
  prepare_bad orig x e f = rw (e, f, prepare)

  prepare_next :
      (orig content : Text)
      → read_file d (join_path b.root file) ≡ some orig
      → apply_hunks orig (hunks_of file hunks) ≡ ok content
      → prepare d hunks (file ∷ files) b contents
        ≡ prepare d hunks files
            (record b {
              originals = remember file orig b.originals;
              last_files = b.last_files ++ file ∷ [];
            })
            (insert file content contents)
  unfolding prepare
  prepare_next orig content e f = rw (e, f, prepare)

pub prepare-Prepared :
    (d₀ d : Disk) (hunks : Dict (List Hunk)) (files : List Text) (b : Bookkeeper)
    (contents : Dict Text)
    → Fresh b.root d₀ d b.originals files
    → Noted b.root d₀ b.originals
    → Prepared d₀ b files (prepare d hunks files b contents)
prepare-Prepared d₀ d hunks [] b contents fresh noted =
    unfold prepare in
    record {
      same_root = refl;
      noted = noted;
      kept = λ f o at. at;
      all_noted = λ c e f at. absurd at;
    }
prepare-Prepared d₀ d hunks (file ∷ files) b contents fresh noted =
    elim (Option-cases (read_file d (join_path b.root file))) [
      | inl e ↦
          subst (Prepared d₀ b (file ∷ files))
            (sym (prepare_unread d hunks file files b contents e))
            (record {
              same_root = refl;
              noted = noted;
              kept = λ f o at. at;
              all_noted = λ c k f at. cc;
            })
      | inr (orig, e) ↦
          let noted' =
            Noted-remember b.root d₀ file orig b.originals
              (λ new. sym (fresh file (inl refl) new) ∙ e) noted in
          elim (Result-cases (apply_hunks orig (hunks_of file hunks))) [
            | inr (x, f) ↦
                subst (Prepared d₀ b (file ∷ files))
                  (sym (prepare_bad d hunks file files b contents orig x e f))
                  (record {
                    same_root = refl;
                    noted = noted';
                    kept = λ g o at. In-remember_old file orig g o b.originals at;
                    all_noted = λ c k g at. cc;
                  })
            | inl (content, f) ↦
                let later =
                  prepare-Prepared d₀ d hunks files
                    (record b {
                      originals = remember file orig b.originals;
                      last_files = b.last_files ++ file ∷ [];
                    })
                    (insert file content contents)
                    (λ g at new. fresh g (inr at) (lookup-remember file orig g b.originals new))
                    noted' in
                let (o, here) = In-remember file orig b.originals in
                subst (Prepared d₀ b (file ∷ files))
                  (sym (prepare_next d hunks file files b contents orig content e f))
                  (record {
                    same_root = later.same_root;
                    noted = later.noted;
                    kept = λ g o at. later.kept g o (In-remember_old file orig g o b.originals at);
                    all_noted = λ c k g at. elim at [
                      | inl same ↦ (o, rw same (later.kept file o here))
                      | inr there ↦ later.all_noted c k g there
                    ];
                  })
          ]
    ]
