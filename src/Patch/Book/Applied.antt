-- ===== src/Patch/Book/Applied.antt =====
-- `Apply` of the bookkeeper, and what `Revert` needs afterwards.
use krellin.Prelude.{
  ◌≡◌, refl, sym, ◌∙◌, ◌⊎◌, inl, inr, Bool, true, false, List, [], ◌∷◌, In, Bool-cases,
}
use krellin.Prelude.Text.{Text, text_eq, text_eq_iff}
use krellin.Prelude.Result.{Result, ok, err}
use krellin.Prelude.Dict.{Dict, lookup-not_In}
use krellin.FilePath.{join_path}
use krellin.Patch.{PatchError}
use krellin.Patch.Parse.{Parsed, parse_unified_diff}
use krellin.Patch.Book.{
  Disk, read_file, Bookkeeper, content_of, prepare, write_all, finish_apply, after_prepare,
  apply_parsed, apply, new_bookkeeper,
}
use krellin.Patch.Book.Restore.{Restores, written, read-written}
use krellin.Patch.Book.Prepared.{Fresh, Prepared, prepare-Prepared}

-- The second loop of `Apply` touches only the paths of the files.
write_all-others :
    (root : Text) (contents : Dict Text) (files : List Text) (d : Disk) (path : Text)
    → (read_file (write_all root contents files d).1 path ≡ read_file d path)
      ⊎ ((f : Text) × In f files × (join_path root f ≡ path))
unfolding write_all
write_all-others root contents [] d path = inl refl
write_all-others root contents (file ∷ files) d path =
    elim (Bool-cases (d.refuses (join_path root file))) [
      | inl e ↦ rw (e, write_all) (inl refl)
      | inr e ↦
          rw (e, write_all)
            (let d' = written d (join_path root file) (content_of file contents) in
              let one = read-written d (join_path root file) path (content_of file contents) in
              elim (write_all-others root contents files d' path) [
                | inr (f, at, p) ↦ inr (f, inr at, p)
                | inl same ↦ elim (Bool-cases (text_eq path (join_path root file))) [
                  | inl k ↦ inr (file, inl refl, sym ((text_eq_iff path (join_path root file)).0 k))
                  | inr k ↦ inl (same ∙ one ∙ rw k)
                ]
              ])
    ]

abbrev files_in : Result PatchError Parsed → List Text
files_in (err e) = []
files_in (ok p) = p.0

-- The files that a diff names.
abbrev files_of : Text → List Text
files_of diff = files_in (parse_unified_diff diff)

-- A file that the diff names and a noted file have different paths, unless they have one name.
abbrev NoAlias : Bookkeeper → List Text → Type 0
NoAlias b files =
    (f g o : Text)
    → In f files
    → In (g, o) b.originals
    → join_path b.root f ≡ join_path b.root g
    → f ≡ g

NoAlias-Fresh :
    (b : Bookkeeper) (d₀ d : Disk) (files : List Text)
    → Restores b d₀ d
    → NoAlias b files
    → Fresh b.root d₀ d b.originals files
NoAlias-Fresh b d₀ d files r alias file at new = elim (r.covered (join_path b.root file)) [
  | inl e ↦ e
  | inr (g, o, there, p) ↦
      let same : file ≡ g = alias file g o at there (sym p) in
      absurd (lookup-not_In file o b.originals new (rw same there))
]

-- The bookkeeper that `Apply` leaves can get from the disk that it leaves back to the first one.
abbrev pub After : Disk → Result PatchError (List Text) × Bookkeeper × Disk → Type 0
After d₀ out = Restores out.1 d₀ out.2

finish_apply-Restores :
    (diff : Text) (d₀ : Disk) (b : Bookkeeper) (w : Bool × Disk)
    → Restores b d₀ w.1
    → After d₀ (finish_apply diff b w)
finish_apply-Restores diff d₀ b (true, d) r = record { noted = r.noted; covered = r.covered }
finish_apply-Restores diff d₀ b (false, d) r = r

after_prepare-Restores :
    (diff : Text) (files : List Text) (d₀ d : Disk) (b : Bookkeeper)
    (p : Result PatchError (Dict Text) × Bookkeeper)
    → Restores b d₀ d
    → Prepared d₀ b files p
    → After d₀ (after_prepare diff files d p)
after_prepare-Restores diff files d₀ d b (err e, b') r p = record {
  noted = λ f o at. rw p.same_root (p.noted f o at);
  covered = λ path. elim (r.covered path) [
    | inl same ↦ inl same
    | inr (f, o, at, q) ↦ inr (f, o, p.kept f o at, rw p.same_root q)
  ];
}
after_prepare-Restores diff files d₀ d b (ok contents, b') r p =
    finish_apply-Restores diff d₀ b' (write_all b'.root contents files d) (record {
      noted = λ f o at. rw p.same_root (p.noted f o at);
      covered = λ path. elim (write_all-others b'.root contents files d path) [
        | inl same ↦ elim (r.covered path) [
          | inl e ↦ inl (same ∙ e)
          | inr (f, o, at, q) ↦ inr (f, o, p.kept f o at, rw p.same_root q)
        ]
        | inr (f, at, q) ↦ let (o, there) = p.all_noted contents refl f at in inr (f, o, there, q)
      ];
    })

apply_parsed-Restores :
    (diff : Text) (d₀ d : Disk) (b : Bookkeeper) (parsed : Result PatchError Parsed)
    → Restores b d₀ d
    → NoAlias b (files_in parsed)
    → After d₀ (apply_parsed b d diff parsed)
apply_parsed-Restores diff d₀ d b (err e) r alias = r
apply_parsed-Restores diff d₀ d b (ok (files, hunks)) r alias =
    let b' = record b { last_files = []; last_patch = [] } in
    after_prepare-Restores diff files d₀ d b' (prepare d hunks files b' [])
      (record { noted = r.noted; covered = r.covered })
      (prepare-Prepared d₀ d hunks files b' [] (NoAlias-Fresh b d₀ d files r alias) r.noted)

-- Where a bookkeeper can get from the disk back to that of the start, and no file of the diff is a
-- noted file under another name, it can after `Apply` of any diff, on success, on a bad diff or hunk,
-- on a file that cannot be read, and where only some of the files could be written; a write that is refused leaves the
-- file as it is.
pub apply-Restores :
    (b : Bookkeeper) (d₀ d : Disk) (diff : Text)
    → Restores b d₀ d
    → NoAlias b (files_of diff)
    → After d₀ (apply b d diff)
unfolding apply
apply-Restores b d₀ d diff r alias =
    apply_parsed-Restores diff d₀ d b (parse_unified_diff diff) r alias

-- At the start a bookkeeper has nothing to bring back.
pub new_bookkeeper-Restores : (root : Text) (d : Disk) → Restores (new_bookkeeper root) d d
unfolding new_bookkeeper
new_bookkeeper-Restores root d = record { noted = λ f o at. absurd at; covered = λ path. inl refl }
