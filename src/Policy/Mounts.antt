-- ===== src/Policy/Mounts.antt =====
-- Which mounts `ValidateMount` lets through.
use krellin.Prelude.{
  ◌≡◌, refl, sym, ap, ◌∙◌, ◌↔◌, inl, inr, Bool, true, false, not, none, List, [], ◌∷◌, ◌++◌, All,
  arith, if◌then◌else◌, Bool-cases,
}
use mathlib.Core.Path.{subst}
use mathlib.Core.List.{append-nil}
use krellin.Prelude.Text.{Text, text_eq, text_eq_iff, is_empty, has_prefix, has_suffix}
use krellin.Prelude.Text.Laws.{has_prefix-append}
use krellin.FilePath.{slash, clean, render, is_rooted, parts_of}
use krellin.FilePath.Laws.{
  IsPlain, parts_of-IsPlain, clean_of_rooted, clean-is_rooted, parts_of-clean, parts_of-render,
}
use krellin.FilePath.Under.{Under, prefix-Under, Under-prefix, render-no_suffix}
use krellin.Policy.{Policy, same_or_child, validate_mount}

-- The test of `sameOrChild` on two texts that are already clean.
abbrev clean_test : Text → Text → Bool
clean_test p r =
    if text_eq p r
    then true
    else has_prefix (p ++ slash ∷ [])
        (if not (has_suffix r (slash ∷ [])) then r ++ slash ∷ [] else r)

render-prefix : (ps : List Text) → has_prefix (render true ps ++ slash ∷ []) (slash ∷ []) ≡ true
unfolding render
render-prefix ps = has_prefix-append (slash ∷ []) _

render-injective :
    (ps rs : List Text)
    → All IsPlain ps
    → All IsPlain rs
    → render true ps ≡ render true rs
    → ps ≡ rs
render-injective ps rs hp hr e =
    sym (parts_of-render ps hp) ∙ ap (parts_of true) e ∙ parts_of-render rs hr

clean_test-Under_root : (ps : List Text) → clean_test (render true ps) (render true []) ≡ true
unfolding render has_suffix has_prefix
clean_test-Under_root ps = elim (Bool-cases (text_eq (render true ps) (render true []))) [
  | inl e ↦ rw e
  | inr e ↦ rw e (render-prefix ps)
]

clean_test-Under :
    (ps rs : List Text)
    → All IsPlain ps
    → All IsPlain rs
    → (clean_test (render true ps) (render true rs) ≡ true) ↔ Under ps rs
clean_test-Under ps [] hp hr = (λ _. (ps, refl), λ _. clean_test-Under_root ps)
clean_test-Under ps (r ∷ rs) hp hr =
    elim (Bool-cases (text_eq (render true ps) (render true (r ∷ rs)))) [
      | inl e ↦ (
        λ _. (
          [],
          render-injective ps (r ∷ rs) hp hr ((text_eq_iff _ _).0 e) ∙ sym (append-nil (r ∷ rs)),
        ),
        λ _. rw e,
      )
      | inr e ↦ rw (e, render-no_suffix r rs hr) (prefix-Under ps r rs hp hr, Under-prefix ps r rs)
    ]

-- Of two rooted paths, the first lies under the second exactly when its parts begin with the
-- parts of the second.
same_or_child-Under :
    (path root : Text)
    → is_rooted path ≡ true
    → is_rooted root ≡ true
    → (same_or_child path root ≡ true) ↔ Under (parts_of true path) (parts_of true root)
unfolding same_or_child
same_or_child-Under path root hp hr =
    rw (clean_of_rooted path hp, clean_of_rooted root hr)
      (clean_test-Under (parts_of true path) (parts_of true root) (parts_of-IsPlain path)
        (parts_of-IsPlain root))

same_or_child-clean :
    (path root : Text)
    → is_rooted path ≡ true
    → is_rooted root ≡ true
    → (same_or_child (clean path) root ≡ true) ↔ Under (parts_of true path) (parts_of true root)
same_or_child-clean path root hp hr =
    subst (λ ps. (same_or_child (clean path) root ≡ true) ↔ Under ps (parts_of true root))
      (parts_of-clean path hp) (same_or_child-Under (clean path) root (clean-is_rooted path hp) hr)

rooted-not_empty : (p : Text) → is_rooted p ≡ true → is_empty p ≡ false
unfolding is_rooted is_empty has_prefix
rooted-not_empty [] h = cc
rooted-not_empty (c ∷ p) h = refl

-- With a rooted repository root and the policy not unsafe, a rooted host path may be mounted
-- exactly when it is the repository root or lies below it.
pub validate_mount_iff :
    (policy : Policy) (host_path : Text)
    → policy.unsafe ≡ false
    → is_rooted policy.repo_root ≡ true
    → is_rooted host_path ≡ true
    → (validate_mount policy host_path ≡ none)
      ↔ Under (parts_of true host_path) (parts_of true policy.repo_root)
unfolding validate_mount
validate_mount_iff policy host_path safe hr hp =
    let inside = same_or_child-clean host_path policy.repo_root hp hr in
    let there = rooted-not_empty policy.repo_root hr in
    (λ h. inside.0 (ground arith), λ u. ground (arith, inside.1 u))
