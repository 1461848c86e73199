-- ===== src/Config/Defaults.antt =====
-- `Parse`, `applyDefaults` and `Write` of internal/config/config.go.
use mathlib.Core.Path.{subst}
use krellin.Prelude.{
  ℕ, zero, suc, ◌≡◌, refl, sym, ap, ◌∙◌, inl, inr, true, false, not, ◌||◌, Option, none, some,
  arith, if◌then◌else◌, Bool-cases, Option-cases,
}
use krellin.Prelude.Text.{Text, codes, text_eq, text_eq_refl, is_empty}
use krellin.Prelude.Int.{ℤ, pos, negsuc, is_zero}
use krellin.Prelude.Result.{ok}
use krellin.Config.{Config, has_digest, validate, apply_defaults, parse, write, is_negative}

pub record Complete (c : Config) : Type 0 where
  pub pinned : has_digest c.image ≡ true
  pub network_set : (text_eq c.network (codes "on") || text_eq c.network (codes "off")) ≡ true
  pub mode_set : (text_eq c.mode (codes "clean") || text_eq c.mode (codes "as-is")) ≡ true
  pub cpus_positive : (n : ℕ) × (c.cpus ≡ pos (suc n))
  pub memory_positive : (n : ℕ) × (c.memory_mb ≡ pos (suc n))

positive-default :
    (n : ℤ) (d : ℕ)
    → is_negative (if is_zero n then pos (suc d) else n) ≡ false
    → (k : ℕ) × ((if is_zero n then pos (suc d) else n) ≡ pos (suc k))
positive-default (pos zero) d h = (d, refl)
positive-default (pos (suc n)) d h = (n, ground arith)
positive-default (negsuc n) d h = cc

set-network : (t : Text) → is_empty t ≡ false → not (is_empty t) ≡ true
set-network t h = ground arith

pub validate-Complete :
    (c : Config) → validate (apply_defaults c) ≡ none → Complete (apply_defaults c)
unfolding validate apply_defaults
validate-Complete c h = record {
  pinned = ground arith;
  network_set = ground (arith, text_eq_refl (codes "on"));
  mode_set = ground (arith, text_eq_refl (codes "clean"));
  cpus_positive = positive-default c.cpus 1 (ground arith);
  memory_positive = positive-default c.memory_mb 4095 (ground arith);
}

default-twice :
    (t d : Text)
    → is_empty d ≡ false
    → (if is_empty (if is_empty t then d else t) then d else if is_empty t then d else t)
      ≡ (if is_empty t then d else t)
default-twice t d h = elim (Bool-cases (is_empty t)) [
  | inl e ↦ rw (e, h) refl
  | inr e ↦ rw (e, e) refl
]

number-twice :
    (n : ℤ) (d : ℕ)
    → (if is_zero (if is_zero n then pos (suc d) else n)
        then pos (suc d)
        else if is_zero n
        then pos (suc d)
        else n)
      ≡ (if is_zero n then pos (suc d) else n)
number-twice (pos zero) d = ground arith
number-twice (pos (suc n)) d = ground arith
number-twice (negsuc n) d = refl

-- Defaults are put in once.
apply_defaults_idempotent : (c : Config) → apply_defaults (apply_defaults c) ≡ apply_defaults c
unfolding apply_defaults
apply_defaults_idempotent c = cc (
  default-twice c.network (codes "on") (unfold is_empty in refl),
  default-twice c.mode (codes "clean") (unfold is_empty in refl),
  number-twice c.cpus 1,
  number-twice c.memory_mb 4095,
)

module _ (unmarshal : Text → Option Config) (marshal : Config → Text) where
  parse-defaults :
      (text : Text) (c : Config)
      → parse unmarshal marshal text ≡ ok c
      → (raw : Config) × (c ≡ apply_defaults raw) × (validate (apply_defaults raw) ≡ none)
  unfolding parse
  parse-defaults text c h = elim (Option-cases (unmarshal text)) [
    | inl e ↦ absurd (ground arith)
    | inr (raw, e) ↦ elim (Option-cases (validate (apply_defaults raw))) [
      | inl v ↦ (raw, ground arith, v)
      | inr (x, v) ↦ absurd (ground arith)
    ]
  ]

  -- A configuration that `Parse` gives is pinned to a digest, has one of the two network and freeze modes, and gives the
  -- capsule at least one processor and one megabyte.
  pub parse-Complete : (text : Text) (c : Config) → parse unmarshal marshal text ≡ ok c → Complete c
  parse-Complete text c h =
      let (raw, e, v) = parse-defaults text c h in subst Complete (sym e) (validate-Complete raw v)

  -- Where the TOML library reads back what it has written, a configuration that `Parse` gives can be written, and is read back
  -- as it was.
  parse-write :
      (text : Text) (c : Config)
      → unmarshal (marshal c) ≡ some c
      → parse unmarshal marshal text ≡ ok c
      → (write unmarshal marshal c ≡ ok (marshal c)) × (parse unmarshal marshal (marshal c) ≡ ok c)
  unfolding parse write
  parse-write text c law h =
      let (raw, e, v) = parse-defaults text c h in
      let valid : validate c ≡ none = ap validate e ∙ v in
      let same : apply_defaults c ≡ c =
        ap apply_defaults e ∙ apply_defaults_idempotent raw ∙ sym e in
      (ground arith, ground arith)
