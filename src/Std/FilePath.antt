-- ===== src/Std/FilePath.antt =====
-- What the code uses of `std::path` on Unix: a path is the list of its components.
use tenodera.Prelude.{
  ◌≡◌, ◌≢◌, ap, sym, refl, Option-cases, inl, inr, ℕ, Bool, true, false, not, ◌&&◌, ◌||◌, Option,
  none, some, List, [], ◌∷◌, ◌++◌, Text, nat_eq, text_eq, text_beq, ◌==◌, ==_iff, map, all,
  is_empty, codes, arith, if◌then◌else◌,
}
use tenodera.Std.Lines.{split_by, join}

pub data Component : Type 0 where
  root_dir cur_dir parent_dir : Component
  normal : Text → Component

abbrev pub FilePath : Type 0
FilePath = List Component

unfoldable pub same_component : Component → Component → Bool
unfolding text_beq
same_component root_dir root_dir = true
same_component cur_dir cur_dir = true
same_component parent_dir parent_dir = true
same_component (normal s) (normal t) = s == t
same_component _ _ = false

-- A piece between slashes: none for an empty one and for `.`.
abbrev pub piece_components : Text → FilePath
piece_components s =
    if is_empty s || s == codes "."
    then []
    else if s == codes ".."
    then parent_dir ∷ []
    else normal s ∷ []

abbrev pub pieces_components : List Text → FilePath
pieces_components [] = []
pieces_components (s ∷ pieces) = piece_components s ++ pieces_components pieces

abbrev pub slash_pieces : Text → List Text
unfolding split_by
slash_pieces s = split_by (λ c. c == b'/') s

-- The first piece is empty where the path has a root, and may be `.` where it has none.
abbrev pub first_components : Text → FilePath
first_components s =
    if is_empty s
    then root_dir ∷ []
    else if s == codes "."
    then cur_dir ∷ []
    else piece_components s

abbrev pub all_components : List Text → FilePath
all_components [] = []
all_components (s ∷ pieces) = first_components s ++ pieces_components pieces

-- `Path::new(s).components()`
unfoldable pub components : Text → FilePath
unfolding slash_pieces
components s = if is_empty s then [] else all_components (slash_pieces s)

-- `base.join(s)` on a base that is not empty.
unfoldable pub join_path : FilePath → Text → FilePath
unfolding components slash_pieces
join_path base s = elim (components s) as (λ _. FilePath) [
  | [] ↦ base
  | c ∷ path ↦
      if same_component c root_dir
      then c ∷ path
      else if same_component c cur_dir
      then base ++ path
      else base ++ (c ∷ path)
]

-- `path.starts_with(base)`
unfoldable pub starts_with_path : FilePath → FilePath → Bool
unfolding same_component
starts_with_path path [] = true
starts_with_path [] (b ∷ base) = false
starts_with_path (c ∷ path) (b ∷ base) = same_component c b && starts_with_path path base

-- `path.parent()`
unfoldable pub parent : FilePath → Option FilePath
parent [] = none
parent (root_dir ∷ []) = none
parent (c ∷ []) = some []
parent (c ∷ d ∷ path) =
    let rest = parent (d ∷ path) in
    elim rest as (λ _. Option FilePath) [ none ↦ none | some p ↦ some (c ∷ p) ]

-- `path.file_name()`, or the empty text.
unfoldable pub file_name : FilePath → Text
file_name [] = []
file_name (normal s ∷ []) = s
file_name (c ∷ []) = []
file_name (c ∷ d ∷ path) = file_name (d ∷ path)

abbrev pub component_text : Component → Text
component_text root_dir = []
component_text cur_dir = codes "."
component_text parent_dir = codes ".."
component_text (normal s) = s

-- `path.to_string_lossy()`, of a path with no needless slash.
unfoldable pub path_text : FilePath → Text
unfolding join
path_text [] = []
path_text (root_dir ∷ []) = codes "/"
path_text (c ∷ path) = join (codes "/") (map component_text (c ∷ path))

same_component_sound : (c d : Component) → same_component c d ≡ true → c ≡ d
unfolding same_component
same_component_sound root_dir root_dir h = refl
same_component_sound cur_dir cur_dir h = refl
same_component_sound parent_dir parent_dir h = refl
same_component_sound (normal s) (normal t) h = ap (λ u. normal u) ((==_iff s t).0 h)
same_component_sound root_dir cur_dir h = cc
same_component_sound root_dir parent_dir h = cc
same_component_sound root_dir (normal t) h = cc
same_component_sound cur_dir root_dir h = cc
same_component_sound cur_dir parent_dir h = cc
same_component_sound cur_dir (normal t) h = cc
same_component_sound parent_dir root_dir h = cc
same_component_sound parent_dir cur_dir h = cc
same_component_sound parent_dir (normal t) h = cc
same_component_sound (normal s) root_dir h = cc
same_component_sound (normal s) cur_dir h = cc
same_component_sound (normal s) parent_dir h = cc

-- A path that starts with another goes on from there.
pub starts_with_path_sound :
    (path base : FilePath)
    → starts_with_path path base ≡ true
    → (rest : FilePath) × (path ≡ base ++ rest)
unfolding starts_with_path
starts_with_path_sound path [] h = (path, refl)
starts_with_path_sound [] (b ∷ base) h = cc
starts_with_path_sound (c ∷ path) (b ∷ base) h =
    let (rest, e) = starts_with_path_sound path base (ground arith) in
    let same = same_component_sound c b (ground arith) in (rest, cc)

split_by_free : (p : ℕ → Bool) (s : Text) → all (λ c. not (p c)) s ≡ true → split_by p s ≡ s ∷ []
unfolding split_by
split_by_free p [] h = refl
split_by_free p (c ∷ s) h =
    let e = split_by_free p s (ground arith) in
    let off : p c ≡ false = ground arith in rw (off, e) refl

module _ (s : Text) (free : all (λ c. not (c == b'/')) s ≡ true) (full : is_empty s ≡ false)
    (ne : s ≢ codes ".") (ne' : s ≢ codes "..") where
  components-name : components s ≡ normal s ∷ []
  unfolding components
  components-name =
      let dot : (s == codes ".") ≡ false = ground (arith, ==_iff s (codes ".")) in
      let dots : (s == codes "..") ≡ false = ground (arith, ==_iff s (codes "..")) in
      rw (full, split_by_free (λ c. c == b'/') s free) (rw (full, dot, dots) refl)

  -- A name without a slash that is not one of the two dots is one component.
  pub join_path-name : (base : FilePath) → join_path base s ≡ base ++ (normal s ∷ [])
  unfolding join_path same_component
  join_path-name base = rw (components-name, join_path) refl

-- Paths are equal if their components are.
unfoldable pub same_path : FilePath → FilePath → Bool
unfolding same_component
same_path [] [] = true
same_path [] (d ∷ path) = false
same_path (c ∷ path) [] = false
same_path (c ∷ path) (d ∷ path') = same_component c d && same_path path path'

-- Whether `path.file_name()` is some name.
unfoldable pub has_name : FilePath → Bool
has_name [] = false
has_name (normal s ∷ []) = true
has_name (c ∷ []) = false
has_name (c ∷ d ∷ path) = has_name (d ∷ path)

pub same_path_sound : (p q : FilePath) → same_path p q ≡ true → p ≡ q
unfolding same_path
same_path_sound [] [] h = refl
same_path_sound [] (d ∷ q) h = cc
same_path_sound (c ∷ p) [] h = cc
same_path_sound (c ∷ p) (d ∷ q) h =
    let same = same_component_sound c d (ground arith) in
    let rest = same_path_sound p q (ground arith) in cc

-- A path with a parent and a name is the two together.
pub parent-file_name :
    (p dir : FilePath)
    → parent p ≡ some dir
    → has_name p ≡ true
    → p ≡ dir ++ (normal (file_name p) ∷ [])
unfolding parent has_name file_name
parent-file_name [] dir h n = cc
parent-file_name (normal s ∷ []) dir h n = let same : [] ≡ dir = cc in rw (sym same) refl
parent-file_name (root_dir ∷ []) dir h n = cc
parent-file_name (cur_dir ∷ []) dir h n = cc
parent-file_name (parent_dir ∷ []) dir h n = cc
parent-file_name (c ∷ d ∷ p) dir h n = elim (Option-cases (parent (d ∷ p))) [
  | inl off ↦ absurd (ground (arith, off))
  | inr (q, on) ↦
      let rest = parent-file_name (d ∷ p) q on n in
      let same : c ∷ q ≡ dir = ground (arith, on) in rw (sym same) (ap (λ r. c ∷ r) rest)
]
