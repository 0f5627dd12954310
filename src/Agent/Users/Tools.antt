-- ===== src/Agent/Users/Tools.antt =====
-- How useradd, usermod and their kin read their arguments, as getopt does.
use tenodera.Prelude.{
  ◌≡◌, refl, ap, ◌∙◌, Bool, true, false, ◌||◌, ◌&&◌, is_some, Option, none, some, List, [], ◌∷◌,
  ◌++◌, Text, nat_eq, text_eq, text_beq, ◌==◌, is_empty, codes, if◌then◌else◌,
}
use tenodera.Std.Str.{strip_prefix}
use tenodera.Std.Lines.{starts_with, join}
use tenodera.Agent.Users.{
  NewUser, Changed, flag, flag_list, optional, joined, moved, useradd_args, usermod_args,
}

-- The options, each with its value or an empty one, and the operands.
abbrev pub Reading : Type 0
Reading = List (Text × Text) × List Text

abbrev pub takes_value : Text → Bool
takes_value o =
    o == codes "-c" || o == codes "-d" || o == codes "-s" || o == codes "-G" || o == codes "-g"

abbrev pub with_option : Text → Text → Reading → Reading
with_option o v (options, operands) = ((o, v) ∷ options, operands)

-- Behind `--` there are operands only. An option that takes a value takes the next argument,
-- whatever it is.
unfoldable pub read_args : List Text → Reading
unfolding starts_with
read_args [] = ([], [])
read_args (o ∷ []) =
    if o == codes "--"
    then ([], [])
    else if starts_with (codes "-") o
    then ((o, []) ∷ [], [])
    else ([], o ∷ [])
read_args (o ∷ v ∷ rest) =
    let behind = read_args rest in
    let next = read_args (v ∷ rest) in
    if o == codes "--"
    then ([], v ∷ rest)
    else if takes_value o
    then with_option o v behind
    else if starts_with (codes "-") o
    then with_option o [] next
    else (next.0, o ∷ next.1)

-- Options before what else is read.
abbrev pub prefixed : List (Text × Text) → Reading → Reading
prefixed os (options, operands) = (os ++ options, operands)

read_args-value :
    (o v : Text) (rest : List Text)
    → (o == codes "--") ≡ false
    → takes_value o ≡ true
    → read_args (o ∷ v ∷ rest) ≡ prefixed ((o, v) ∷ []) (read_args rest)
unfolding read_args
read_args-value o v rest n t = rw (n, t) refl

-- The readings of optional arguments.
abbrev pub read_flag : Text → Text → List (Text × Text)
read_flag o v = if is_empty v then [] else (o, v) ∷ []

abbrev pub read_optional : Text → Option Text → List (Text × Text)
read_optional o none = []
read_optional o (some v) = (o, v) ∷ []

abbrev pub read_bare : Bool → Text → List (Text × Text)
read_bare b o = if b then (o, []) ∷ [] else []

module _ (o : Text) (n : (o == codes "--") ≡ false) (t : takes_value o ≡ true)
    (rest : List Text) where
  read_args-flag :
      (v : Text) → read_args (flag o v ++ rest) ≡ prefixed (read_flag o v) (read_args rest)
  read_args-flag [] = refl
  read_args-flag (c ∷ v) = read_args-value o (c ∷ v) rest n t

  read_args-optional :
      (v : Option Text)
      → read_args (optional o v ++ rest) ≡ prefixed (read_optional o v) (read_args rest)
  read_args-optional none = refl
  read_args-optional (some v) = read_args-value o v rest n t

read_args-m :
    (rest : List Text)
    → read_args (codes "-m" ∷ rest) ≡ prefixed ((codes "-m", []) ∷ []) (read_args rest)
unfolding read_args text_beq starts_with strip_prefix
read_args-m [] = refl
read_args-m (v ∷ rest) = refl

read_args-bare :
    (b : Bool) (rest : List Text)
    → read_args ((if b then codes "-m" ∷ [] else []) ++ rest)
      ≡ prefixed (read_bare b (codes "-m")) (read_args rest)
read_args-bare true rest = read_args-m rest
read_args-bare false rest = refl

read_args-end : (name : Text) → read_args (codes "--" ∷ name ∷ []) ≡ ([], name ∷ [])
unfolding read_args text_beq
read_args-end name = refl

-- What is asked of useradd.
unfoldable pub new_reading : NewUser → Reading
unfolding join
new_reading u =
    let groups = if is_empty u.groups then [] else (codes "-G", join (codes ",") u.groups) ∷ [] in
    prefixed (read_bare u.create_home (codes "-m")) (
      prefixed (read_flag (codes "-c") u.gecos) (
        prefixed (read_flag (codes "-d") u.home)
          (prefixed (read_flag (codes "-s") u.shell) (prefixed groups ([], u.username ∷ [])))))

read_args-groups :
    (groups rest : List Text)
    → read_args (flag_list groups ++ rest)
      ≡ prefixed
          (if is_empty groups then [] else (codes "-G", join (codes ",") groups) ∷ [])
          (read_args rest)
unfolding flag_list
read_args-groups [] rest = refl
read_args-groups (g ∷ groups) rest =
    unfold text_beq in read_args-value (codes "-G") (join (codes ",") (g ∷ groups)) rest refl refl

pub read_args-useradd_args : (u : NewUser) → read_args (useradd_args u) ≡ new_reading u
unfolding useradd_args new_reading text_beq
read_args-useradd_args u =
    read_args-bare u.create_home _
    ∙ ap (prefixed (read_bare u.create_home (codes "-m"))) (
        read_args-flag (codes "-c") refl refl _ u.gecos
        ∙ ap (prefixed (read_flag (codes "-c") u.gecos)) (
            read_args-flag (codes "-d") refl refl _ u.home
            ∙ ap (prefixed (read_flag (codes "-d") u.home)) (
                read_args-flag (codes "-s") refl refl _ u.shell
                ∙ ap (prefixed (read_flag (codes "-s") u.shell)) (
                    read_args-groups u.groups (codes "--" ∷ u.username ∷ [])
                    ∙ ap (prefixed _) (read_args-end u.username)))))

abbrev pub read_groups : Option (List Text) → List (Text × Text)
unfolding join
read_groups none = []
read_groups (some groups) = (codes "-G", join (codes ",") groups) ∷ []

read_optional-joined :
    (groups : Option (List Text)) → read_optional (codes "-G") (joined groups) ≡ read_groups groups
unfolding joined read_groups
read_optional-joined none = refl
read_optional-joined (some groups) = refl

-- What is asked of usermod.
unfoldable pub change_reading : Changed → Reading
unfolding join
change_reading u = prefixed (read_optional (codes "-c") u.gecos) (
    prefixed (read_optional (codes "-s") u.shell) (
      prefixed (read_optional (codes "-d") u.home) (
        prefixed (read_bare (is_some u.home && u.move_home) (codes "-m"))
          (prefixed (read_groups u.groups) ([], u.username ∷ [])))))

read_args-moved :
    (home : Option Text) (move_home : Bool) (rest : List Text)
    → read_args (moved home move_home ++ rest)
      ≡ prefixed (read_bare (is_some home && move_home) (codes "-m")) (read_args rest)
read_args-moved none move_home rest = refl
read_args-moved (some home) move_home rest = read_args-bare move_home rest

pub read_args-usermod_args : (u : Changed) → read_args (usermod_args u) ≡ change_reading u
unfolding usermod_args change_reading text_beq
read_args-usermod_args u =
    read_args-optional (codes "-c") refl refl _ u.gecos
    ∙ ap (prefixed (read_optional (codes "-c") u.gecos)) (
        read_args-optional (codes "-s") refl refl _ u.shell
        ∙ ap (prefixed (read_optional (codes "-s") u.shell)) (
            read_args-optional (codes "-d") refl refl _ u.home
            ∙ ap (prefixed (read_optional (codes "-d") u.home)) (
                read_args-moved u.home u.move_home _
                ∙ ap (prefixed (read_bare (is_some u.home && u.move_home) (codes "-m"))) (
                    read_args-optional (codes "-G") refl refl (codes "--" ∷ u.username ∷ [])
                      (joined u.groups)
                    ∙ ap (prefixed _) (read_args-end u.username)
                    ∙ ap (λ os. prefixed os ([], u.username ∷ []))
                        (read_optional-joined u.groups)))))
