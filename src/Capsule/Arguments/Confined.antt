-- ===== src/Capsule/Arguments/Confined.antt =====
-- What a command line of internal/capsule/docker/docker.go asks for, read as docker reads it.
use krellin.Prelude.{
  ◌≡◌, refl, ◌&&◌, Bool, true, false, not, List, [], ◌∷◌, ◌++◌, append-nil, arith, ltb,
  if◌then◌else◌, drop, All,
}
use krellin.Prelude.Text.{Text, codes, text_eq, is_empty, has_prefix, contains, trim_space}
use krellin.Tools.Output.{itoa}
use krellin.Protocol.{one_of}
use krellin.Capsule.{Config}
use krellin.Capsule.Arguments.{when, appended, build_create_args}

-- Options and what follows them: a word with a dash is an option; it takes the next word as its value, unless it
-- has an equals sign.
pub record Line : Type 0 where
  pub options : List (Text × Text)
  pub words : List Text

abbrev with_option : Text → Text → Line → Line
with_option name value line = record line { options = (name, value) ∷ line.options }

unfoldable pub read_line : List Text → Line
read_line [] = record { options = []; words = [] }
read_line (word ∷ []) = record { options = []; words = word ∷ [] }
read_line (word ∷ next ∷ more) =
    let alone = with_option word [] (read_line (next ∷ more)) in
    let pair = with_option word next (read_line more) in
    if not (has_prefix word (codes "-"))
    then record { options = []; words = word ∷ next ∷ more }
    else if contains word (codes "=")
    then alone
    else pair

-- The values of an option, in order.
unfoldable pub values : Text → List (Text × Text) → List Text
values name [] = []
values name ((n, v) ∷ options) =
    let rest = values name options in if text_eq n name then v ∷ rest else rest

-- The options of a line with others before them.
abbrev after_options : List (Text × Text) → Line → Line
after_options options line = record line { options = options ++ line.options }

abbrev given : Bool → Text → Text → List (Text × Text)
given true name value = (name, value) ∷ []
given false name value = []

read_line-pair :
    (name value : Text) (more : List Text)
    → has_prefix name (codes "-") ≡ true
    → contains name (codes "=") ≡ false
    → read_line (name ∷ value ∷ more) ≡ with_option name value (read_line more)
unfolding read_line
read_line-pair name value more dash no_equals = rw (dash, no_equals)

read_line-when :
    (b : Bool) (name value : Text) (more : List Text)
    → has_prefix name (codes "-") ≡ true
    → contains name (codes "=") ≡ false
    → read_line (when b (name ∷ value ∷ []) ++ more)
      ≡ after_options (given b name value) (read_line more)
unfolding read_line
read_line-when true name value more dash no_equals = rw (dash, no_equals)
read_line-when false name value more dash no_equals = refl

values-given :
    (option : Text) (b : Bool) (name value : Text) (more : List (Text × Text))
    → values option (given b name value ++ more)
      ≡ when (b && text_eq name option) (value ∷ []) ++ values option more
unfolding values
values-given option true name value more = ground arith
values-given option false name value more = refl

abbrev hardened : Bool → List (Text × Text)
hardened true =
    (codes "--cap-drop=ALL", []) ∷ (codes "--security-opt", codes "no-new-privileges") ∷ []
hardened false = []

abbrev not_root : Config → Bool
not_root cfg = not (text_eq (trim_space cfg.user) (codes "root"))

read_line-hardened :
    (b : Bool) (name value : Text) (more : List Text)
    → read_line (
        when b (codes "--cap-drop=ALL" ∷ codes "--security-opt" ∷ codes "no-new-privileges" ∷ [])
        ++ (name ∷ value ∷ more))
      ≡ after_options (hardened b) (read_line (name ∷ value ∷ more))
unfolding read_line has_prefix contains
read_line-hardened true name value more = refl
read_line-hardened false name value more = refl

-- The options of a command that creates a container.
options_of : Config → Text → List (Text × Text)
options_of cfg name =
    (codes "--name", name)
    ∷ appended (
        hardened (not_root cfg)
        ∷ ((codes "-w", codes "/workspace") ∷ [])
        ∷ ((codes "-e", codes "HOME=/home/dev") ∷ [])
        ∷ ((codes "--label", codes "krellin.repo_id=" ++ cfg.repo_id) ∷ [])
        ∷ ((codes "--label", codes "krellin.repo_root=" ++ cfg.repo_root) ∷ [])
        ∷ ((codes "--label", codes "krellin.kind=capsule") ∷ [])
        ∷ given (not (is_empty (trim_space cfg.user))) (codes "--user") cfg.user
        ∷ given (not (is_empty cfg.created_at)) (codes "--label")
            (codes "krellin.created_at=" ++ cfg.created_at)
        ∷ ((codes "-v", codes "krellin-" ++ (cfg.repo_id ++ codes "-home:/home/dev")) ∷ [])
        ∷ ((codes "-v", codes "krellin-" ++ (cfg.repo_id ++ codes "-env:/env")) ∷ [])
        ∷ ((codes "-v", cfg.repo_root ++ codes ":/workspace") ∷ [])
        ∷ given (not cfg.network_on) (codes "--network") (codes "none")
        ∷ given (ltb 0 cfg.cpus) (codes "--cpus") (itoa cfg.cpus)
        ∷ given (ltb 0 cfg.memory_mb) (codes "--memory") (itoa cfg.memory_mb ++ codes "m")
        ∷ [])

read_tail :
    (image : Text)
    → has_prefix image (codes "-") ≡ false
    → read_line (image ∷ codes "sleep" ∷ codes "infinity" ∷ [])
      ≡ record { options = []; words = image ∷ codes "sleep" ∷ codes "infinity" ∷ [] }
unfolding read_line
read_tail image named = rw named

read_create :
    (cfg : Config) (name : Text)
    → has_prefix cfg.image_digest (codes "-") ≡ false
    → read_line (drop 2 (build_create_args cfg name)) ≡ record {
      options = options_of cfg name;
      words = cfg.image_digest ∷ codes "sleep" ∷ codes "infinity" ∷ [];
    }
unfolding build_create_args options_of has_prefix contains
read_create cfg name named =
    simp (read_line-pair, read_line-when, read_line-hardened, read_tail cfg.image_digest named)

values-hardened :
    (option : Text) (b : Bool) (more : List (Text × Text))
    → values option (hardened b ++ more)
      ≡ when (b && text_eq (codes "--cap-drop=ALL") option) ([] ∷ [])
        ++ (when (b && text_eq (codes "--security-opt") option) (codes "no-new-privileges" ∷ [])
            ++ values option more)
unfolding values
values-hardened option true more = ground arith
values-hardened option false more = refl

when-and-false : (b : Bool) (words : List Text) → when (b && false) words ≡ []
when-and-false true words = refl
when-and-false false words = refl

and-true : (b : Bool) → (b && true) ≡ b
and-true true = refl
and-true false = refl

-- The options that docker may be given; every other one could loosen the container.
abbrev allowed : List Text
allowed =
    codes "--name"
    ∷ codes "--cap-drop=ALL"
    ∷ codes "--security-opt"
    ∷ codes "-w"
    ∷ codes "-e"
    ∷ codes "--label"
    ∷ codes "--user"
    ∷ codes "-v"
    ∷ codes "--network"
    ∷ codes "--cpus"
    ∷ codes "--memory"
    ∷ []

abbrev pub Allowed : Text × Text → Type 0
Allowed (name, value) = one_of name allowed ≡ true

given-Allowed :
    (b : Bool) (name value : Text) (rest : List (Text × Text))
    → one_of name allowed ≡ true
    → All Allowed rest
    → All Allowed (given b name value ++ rest)
given-Allowed true name value rest h k = (h, k)
given-Allowed false name value rest h k = k

hardened-Allowed :
    (b : Bool) (rest : List (Text × Text)) → All Allowed rest → All Allowed (hardened b ++ rest)
unfolding one_of text_eq
hardened-Allowed true rest k = (refl, (refl, k))
hardened-Allowed false rest k = k

options_of-Allowed : (cfg : Config) (name : Text) → All Allowed (options_of cfg name)
unfolding options_of one_of text_eq
options_of-Allowed cfg name =
    let limits = given-Allowed (not cfg.network_on) (codes "--network") (codes "none") _ refl (
      given-Allowed (ltb 0 cfg.cpus) (codes "--cpus") (itoa cfg.cpus) _ refl (
        given-Allowed (ltb 0 cfg.memory_mb) (codes "--memory") (itoa cfg.memory_mb ++ codes "m") []
          refl tt)) in
    (
      refl,
      hardened-Allowed (not_root cfg) _ (
        refl,
        (
          refl,
          (
            refl,
            (
              refl,
              (
                refl,
                given-Allowed (not (is_empty (trim_space cfg.user))) (codes "--user") cfg.user _
                    refl
                    (given-Allowed (not (is_empty cfg.created_at)) (codes "--label")
                      (codes "krellin.created_at=" ++ cfg.created_at) _ refl
                      (refl, (refl, (refl, limits)))),
              ),
            ),
          ),
        ),
      ),
    )

-- What docker is asked for: the name, the three volumes, the network, the limits, the privileges, and the command.
pub record Confines (cfg : Config) (name : Text) (line : Line) : Type 0 where
  pub nothing_else : All Allowed line.options
  pub as_user :
      values (codes "--user") line.options
      ≡ when (not (is_empty (trim_space cfg.user))) (cfg.user ∷ [])
  pub home : values (codes "-e") line.options ≡ codes "HOME=/home/dev" ∷ []
  pub named : values (codes "--name") line.options ≡ name ∷ []
  pub mounted :
      values (codes "-v") line.options
      ≡ (codes "krellin-" ++ (cfg.repo_id ++ codes "-home:/home/dev"))
        ∷ (codes "krellin-" ++ (cfg.repo_id ++ codes "-env:/env"))
        ∷ (cfg.repo_root ++ codes ":/workspace")
        ∷ []
  pub cut_off :
      values (codes "--network") line.options ≡ when (not cfg.network_on) (codes "none" ∷ [])
  pub limited_cpus :
      values (codes "--cpus") line.options ≡ when (ltb 0 cfg.cpus) (itoa cfg.cpus ∷ [])
  pub limited_memory :
      values (codes "--memory") line.options
      ≡ when (ltb 0 cfg.memory_mb) ((itoa cfg.memory_mb ++ codes "m") ∷ [])
  pub no_capabilities : values (codes "--cap-drop=ALL") line.options ≡ when (not_root cfg) ([] ∷ [])
  pub no_privileges :
      values (codes "--security-opt") line.options
      ≡ when (not_root cfg) (codes "no-new-privileges" ∷ [])
  pub runs : line.words ≡ cfg.image_digest ∷ codes "sleep" ∷ codes "infinity" ∷ []

ruleset reading = (values-given, values-hardened, when-and-false, and-true)

options-Confines :
    (cfg : Config) (name : Text)
    → Confines cfg name (record {
      options = options_of cfg name;
      words = cfg.image_digest ∷ codes "sleep" ∷ codes "infinity" ∷ [];
    })
unfolding options_of values text_eq
options-Confines cfg name = record {
  nothing_else = options_of-Allowed cfg name;
  as_user = simp reading (append-nil _);
  home = simp reading;
  named = simp reading;
  mounted = simp reading;
  cut_off = simp reading (append-nil _);
  limited_cpus = simp reading (append-nil _);
  limited_memory = simp reading (append-nil _);
  no_capabilities = simp reading (append-nil _);
  no_privileges = simp reading (append-nil _);
  runs = refl;
}

-- Whatever else the configuration holds, if the image does not begin with a dash: docker reads the command that creates
-- a container as one with no options but the name, labels, the working directory, one variable of the environment, the
-- user, volumes, the network, limits and the dropping of privileges; it mounts the two volumes and the repository's root
-- and nothing else, is cut off from the network unless it is on, has the limits that are set, drops all capabilities and new privileges unless the user
-- is root, and runs `sleep infinity` in the image.
pub build_create_args-Confines :
    (cfg : Config) (name : Text)
    → has_prefix cfg.image_digest (codes "-") ≡ false
    → Confines cfg name (read_line (drop 2 (build_create_args cfg name)))
build_create_args-Confines cfg name named =
    rw (read_create cfg name named) (options-Confines cfg name)
