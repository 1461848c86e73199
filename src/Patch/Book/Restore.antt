-- ===== src/Patch/Book/Restore.antt =====
-- `Revert` of the bookkeeper, against the files before the first patch.
use krellin.Prelude.{
  ◌≡◌, refl, sym, ap, ◌∙◌, ◌⊎◌, inl, inr, true, false, some, List, [], ◌∷◌, arith, if◌then◌else◌,
  In, Bool-cases,
}
use krellin.Prelude.Text.{Text, text_eq, text_eq_iff}
use krellin.Prelude.Dict.{insert, lookup-insert}
use krellin.FilePath.{join_path}
use krellin.Patch.Book.{Disk, read_file, Bookkeeper, revert_all}

-- Every noted content is that of the file on the disk `d₀`.
abbrev pub Noted : Text → Disk → List (Text × Text) → Type 0
Noted root d₀ entries =
    (file orig : Text) → In (file, orig) entries → read_file d₀ (join_path root file) ≡ some orig

-- Every path at which the disks differ is that of a noted file.
abbrev pub Covered : Text → Disk → Disk → List (Text × Text) → Type 0
Covered root d₀ d entries =
    (path : Text)
    → (read_file d path ≡ read_file d₀ path)
      ⊎ ((file orig : Text) × In (file, orig) entries × (join_path root file ≡ path))

-- The bookkeeper knows how to get from the disk `d` back to `d₀`.
pub record Restores (b : Bookkeeper) (d₀ d : Disk) : Type 0 where
  pub noted : Noted b.root d₀ b.originals
  pub covered : Covered b.root d₀ d b.originals

-- No write is refused at the path of an entry.
abbrev Writable : Text → Disk → List (Text × Text) → Type 0
Writable root d entries =
    (file orig : Text) → In (file, orig) entries → d.refuses (join_path root file) ≡ false

abbrev pub written : Disk → Text → Text → Disk
written d path content = record d { files = insert path content d.files }

pub read-written :
    (d : Disk) (p q c : Text)
    → read_file (written d p c) q ≡ (if text_eq q p then some c else read_file d q)
read-written d p q c = lookup-insert p q c d.files

Covered-step :
    (root : Text) (d₀ d : Disk) (file orig : Text) (entries : List (Text × Text))
    → read_file d₀ (join_path root file) ≡ some orig
    → Covered root d₀ d ((file, orig) ∷ entries)
    → Covered root d₀ (written d (join_path root file) orig) entries
Covered-step root d₀ d file orig entries h cover q =
    elim (Bool-cases (text_eq q (join_path root file))) [
      | inl e ↦ inl (
          read-written d (join_path root file) q orig
          ∙ rw (e, (text_eq_iff q (join_path root file)).0 e) (sym h))
      | inr e ↦
          let same = read-written d (join_path root file) q orig in
          elim (cover q) [
            | inl k ↦ inl (same ∙ rw e k)
            | inr (f, o, inl at, p) ↦
                let here : q ≡ join_path root file =
                  sym p ∙ ap (λ (x : Text × Text). join_path root x.0) at in
                absurd (ground (arith, (text_eq_iff q (join_path root file)).1 here))
            | inr (f, o, inr at, p) ↦ inr (f, o, at, p)
          ]
    ]

-- Where the noted files have their contents from the start, every file that is not as it was at the start is noted, and
-- the noted files can be written: reverting, in any order of them, writes them all and brings every file back.
pub revert_all-restores :
    (root : Text) (d₀ d : Disk) (entries : List (Text × Text))
    → Noted root d₀ entries
    → Covered root d₀ d entries
    → Writable root d entries
    → ((revert_all root entries d).0 ≡ true)
      × ((path : Text) → read_file (revert_all root entries d).1 path ≡ read_file d₀ path)
unfolding revert_all
revert_all-restores root d₀ d [] noted cover writable =
    (refl, λ path. elim (cover path) [ inl e ↦ e | inr (f, o, at, p) ↦ absurd at ])
revert_all-restores root d₀ d ((file, orig) ∷ entries) noted cover writable =
    rw (writable file orig (inl refl), revert_all)
      (revert_all-restores root d₀ (written d (join_path root file) orig) entries
        (λ f o at. noted f o (inr at))
        (Covered-step root d₀ d file orig entries (noted file orig (inl refl)) cover)
        (λ f o at. writable f o (inr at)))
