-- ===== src/FilePath/Dir.antt =====
-- `Dir` of the Go packages path and path/filepath (on Unix), and what it is at a clean path.
use mathlib.Core.List.{reverse-reverse}
use krellin.Prelude.{◌≡◌, refl, ap, ◌∙◌, true, List, [], ◌∷◌, ◌++◌, All, reverse}
use krellin.Prelude.Text.{Text, split, has_prefix, join, is_empty}
use krellin.Prelude.Text.Laws.{IsFree, split-append}
use krellin.FilePath.{slash, clean, render, parts_of, is_rooted, resolve_part, resolve_parts}
use krellin.FilePath.Laws.{
  IsPlain, plain-IsFree, clean_of_rooted, resolve_parts_of_IsPlain, resolve_part-empty,
}
use krellin.FilePath.Under.{split-render_cons}

-- What stands up to the last slash.
abbrev up_to_slash : List Text → Text
up_to_slash [] = []
up_to_slash (part ∷ []) = []
up_to_slash (part ∷ more ∷ parts) = part ++ slash ∷ up_to_slash (more ∷ parts)

-- `path.Dir(p)`
unfoldable pub dir_of : Text → Text
dir_of path = clean (up_to_slash (split slash path))

split-up_to_slash :
    (parts : List Text) (last : Text)
    → All (IsFree slash) parts
    → split slash (up_to_slash (parts ++ last ∷ [])) ≡ parts ++ [] ∷ []
unfolding split
split-up_to_slash [] last h = refl
split-up_to_slash (part ∷ []) last (h, k) = split-append slash part [] h
split-up_to_slash (part ∷ more ∷ parts) last (h, k) =
    split-append slash part (up_to_slash (more ∷ (parts ++ last ∷ []))) h
    ∙ ap (λ ps. part ∷ ps) (split-up_to_slash (more ∷ parts) last k)

resolve_parts-append :
    (stack ps qs : List Text)
    → resolve_parts true stack (ps ++ qs) ≡ resolve_parts true (resolve_parts true stack ps) qs
unfolding resolve_parts
resolve_parts-append stack [] qs = refl
resolve_parts-append stack (p ∷ ps) qs = resolve_parts-append (resolve_part true stack p) ps qs

resolved :
    (parts : List Text)
    → All IsPlain parts
    → resolve_parts true [] (([] ∷ parts) ++ [] ∷ []) ≡ reverse parts
unfolding resolve_parts
resolved parts h =
    ap (λ s. resolve_parts true s (parts ++ [] ∷ [])) (resolve_part-empty [])
    ∙ resolve_parts-append [] parts ([] ∷ [])
    ∙ ap (λ s. resolve_parts true s ([] ∷ [])) (resolve_parts_of_IsPlain [] parts h)
    ∙ resolve_part-empty (reverse parts)

up_to_slash-parts :
    (parts : List Text) (last : Text)
    → All IsPlain parts
    → parts_of true (up_to_slash (([] ∷ parts) ++ last ∷ [])) ≡ parts
unfolding parts_of
up_to_slash-parts parts last h =
    ap (λ ps. reverse (resolve_parts true [] ps))
      (split-up_to_slash ([] ∷ parts) last (tt, plain-IsFree parts h))
    ∙ ap reverse (resolved parts h)
    ∙ reverse-reverse parts

up_to_slash-is_rooted :
    (parts : List Text) (last : Text) → is_rooted (up_to_slash (([] ∷ parts) ++ last ∷ [])) ≡ true
unfolding is_rooted has_prefix
up_to_slash-is_rooted [] last = refl
up_to_slash-is_rooted (part ∷ parts) last = refl

split-render_snoc :
    (parts : List Text) (last : Text)
    → All IsPlain (parts ++ last ∷ [])
    → split slash (render true (parts ++ last ∷ [])) ≡ ([] ∷ parts) ++ last ∷ []
split-render_snoc [] last h = split-render_cons last [] h
split-render_snoc (part ∷ parts) last h = split-render_cons part (parts ++ last ∷ []) h

-- The directory of a rooted path of plain parts is made of all but the last one.
pub dir_of-render :
    (parts : List Text) (last : Text)
    → All IsPlain (parts ++ last ∷ [])
    → All IsPlain parts
    → dir_of (render true (parts ++ last ∷ [])) ≡ render true parts
unfolding dir_of
dir_of-render parts last h k =
    ap (λ ps. clean (up_to_slash ps)) (split-render_snoc parts last h)
    ∙ clean_of_rooted _ (up_to_slash-is_rooted parts last)
    ∙ ap (render true) (up_to_slash-parts parts last k)

pub dir_of_root : dir_of (render true []) ≡ render true []
unfolding dir_of render join split clean parts_of is_rooted has_prefix is_empty resolve_parts
    resolve_part
dir_of_root = refl
