-- ===== src/Config/Digest.antt =====
-- `HasDigest` of internal/config/config.go, against the form of a pinned image.
use krellin.Prelude.{
  ℕ, ◌≡◌, refl, sym, ap, ◌∙◌, inl, inr, true, some, List, [], ◌∷◌, ◌++◌, arith, length, Bool-cases,
  Option-cases,
}
use krellin.Prelude.Text.{Text, codes, has_prefix, split, join}
use krellin.Prelude.Text.Laws.{has_prefix-iff-after_prefix, join-split}
use krellin.Config.{digest_mark, after_at, all_hex, has_digest, is_digest}

tail-eq : {a b : ℕ} {s t : Text} → ◌≡◌ {A = Text} (a ∷ s) (b ∷ t) → s ≡ t
tail-eq e = cc

-- The text that `after_at` finds.
after_at-append :
    (image rest : Text)
    → after_at image ≡ some rest
    → (name t : Text) × (image ≡ name ++ digest_mark ++ t) × (rest ≡ codes "sha256:" ++ t)
unfolding after_at
after_at-append [] rest h = cc
after_at-append (c ∷ s) rest h = elim (Bool-cases (has_prefix (c ∷ s) digest_mark)) [
  | inl e ↦
      let (t, k) = has_prefix-iff-after_prefix (c ∷ s) digest_mark e in
      let same : some s ≡ some rest = rw (e, after_at) at h in
      let eq : s ≡ rest = cc in ([], t, k, sym eq ∙ tail-eq k)
  | inr e ↦
      let (name, t, k, l) = after_at-append s rest (rw (e, after_at) at h) in
      (c ∷ name, t, ap (λ x. c ∷ x) k, l)
]

is_digest-hex :
    (parts : List Text)
    → is_digest (codes "sha256" ∷ parts) ≡ true
    → (digest : Text) × (parts ≡ digest ∷ []) × (length digest ≡ 64) × (all_hex digest ≡ true)
is_digest-hex [] h = cc
is_digest-hex (digest ∷ []) h = (digest, refl, ground arith, ground arith)
is_digest-hex (digest ∷ more ∷ parts) h = cc

join-one : (t : Text) → join 58 (t ∷ []) ≡ t
unfolding join
join-one t = refl

-- An image that counts as pinned is a name, `@sha256:`, and 64 hexadecimal digits.
has_digest-eq :
    (image : Text)
    → has_digest image ≡ true
    → (name digest : Text) × (image ≡ name ++ digest_mark ++ digest)
      × (length digest ≡ 64)
      × (all_hex digest ≡ true)
unfolding has_digest
has_digest-eq image h = elim (Option-cases (after_at image)) [
  | inl e ↦ absurd (ground arith)
  | inr (rest, e) ↦
      let (name, t, k, l) = after_at-append image rest e in
      let d : is_digest (split 58 (codes "sha256:" ++ t)) ≡ true = rw (e, l) at h in
      let (digest, p, n, x) = is_digest-hex (split 58 t) (unfold split in d) in
      let same : digest ≡ t = sym (join-one digest) ∙ ap (join 58) (sym p) ∙ join-split 58 t in
      (name, digest, rw same k, n, x)
]
