-- ===== src/Ref/Snapshot.antt =====
-- internal/ref/tree.go: the file system of a resolved tree. The proofs are in the module below.
pub mod Listed
pub mod Opened
use cube_idp.Base.{
  ℕ, Bool, true, false, not, ◌&&◌, ◌||◌, Option, none, some, List, [], ◌∷◌, ◌++◌, length, drop,
  Dict, find, Result, text_le, has_prefix, cons_head, eqb, if◌then◌else◌, Text, txt, ◌==◌, ok, err,
}

-- A tree: the content of each stored path.
abbrev pub TreeFiles : Type 0
TreeFiles = Dict (List ℕ)

pub record TreeInfo : Type 0 where
  pub name : Text
  pub size : ℕ
  pub is_dir : Bool

pub data FsError : Type 0 where
  invalid_path : FsError
  not_exist : FsError

-- strings.Cut at a slash: what is before the first one, and whether there is one.
pub cut_slash : Text → Text × Bool
cut_slash [] = ([], false)
cut_slash (c ∷ s) =
    let (base, nested) = cut_slash s in if eqb c b'/' then ([], true) else (c ∷ base, nested)

-- The map children, as the list of its entries: each stands under its name.
put_child : List TreeInfo → TreeInfo → List TreeInfo
put_child [] info = info ∷ []
put_child (x ∷ children) info =
    let rest = put_child children info in if x.name == info.name then info ∷ children else x ∷ rest

info_of : (nested : Bool) → (base rest : Text) → (data' : List ℕ) → TreeInfo
info_of true base rest data' = record { name = base; size = 0; is_dir = true }
info_of false base rest data' = record { name = rest; size = length data'; is_dir = false }

child_info : (rest : Text) → (data' : List ℕ) → TreeInfo
unfolding cut_slash info_of
child_info rest data' = let (base, nested) = cut_slash rest in info_of nested base rest data'

-- The loop of dirEntries over the stored paths.
add_children : (prefix : Text) → Bool × List TreeInfo → TreeFiles → Bool × List TreeInfo
unfolding put_child child_info
add_children prefix state [] = state
add_children prefix (exists, children) ((path, data') ∷ files) =
    add_children prefix
      (if has_prefix prefix path
        then (true, put_child children (child_info (drop (length prefix) path) data'))
        else (exists, children))
      files

insert_info : TreeInfo → List TreeInfo → List TreeInfo
insert_info info [] = info ∷ []
insert_info info (x ∷ infos) =
    let rest = insert_info info infos in
    if text_le info.name x.name then info ∷ x ∷ infos else x ∷ rest

-- slices.SortFunc by the name.
sort_infos : List TreeInfo → List TreeInfo
unfolding insert_info
sort_infos [] = []
sort_infos (info ∷ infos) = insert_info info (sort_infos infos)

abbrev pub dir_prefix : (dir : Text) → Text
dir_prefix dir = if dir == txt "." then [] else dir ++ b'/' ∷ []

sorted_if : Bool × List TreeInfo → Option (List TreeInfo)
unfolding sort_infos
sorted_if (true, children) = some (sort_infos children)
sorted_if (false, children) = none

-- `none` is the answer false.
pub dir_entries : TreeFiles → (dir : Text) → Option (List TreeInfo)
unfolding add_children sorted_if
dir_entries files dir = sorted_if (add_children (dir_prefix dir) (dir == txt ".", []) files)

elements : Text → List Text
elements [] = [] ∷ []
elements (c ∷ s) = let rest = elements s in if eqb c b'/' then [] ∷ rest else cons_head c rest

good_elements : List Text → Bool
good_elements [] = true
good_elements (e ∷ rest) =
    not ((e == []) || (e == txt ".") || (e == txt "..")) && good_elements rest

-- fs.ValidPath
pub valid_path : Text → Bool
unfolding elements good_elements
valid_path name = (name == txt ".") || good_elements (elements name)

last_of : Text → List Text → Text
last_of x [] = x
last_of x (y ∷ rest) = last_of y rest

-- path.Base of a valid path
base_of : Text → Text
unfolding elements last_of
base_of name = last_of [] (elements name)

-- ReadFile
pub read_file : TreeFiles → (name : Text) → Result FsError (List ℕ)
unfolding valid_path
read_file files name =
    if not (valid_path name)
    then err invalid_path
    else elim (find files name) [ none ↦ err not_exist | some data' ↦ ok data' ]

-- ReadDir
pub read_dir : TreeFiles → (name : Text) → Result FsError (List TreeInfo)
unfolding valid_path dir_entries
read_dir files name =
    if not (valid_path name)
    then err invalid_path
    else elim (dir_entries files name) [ none ↦ err not_exist | some entries ↦ ok entries ]

-- Stat
pub stat : TreeFiles → (name : Text) → Result FsError TreeInfo
unfolding valid_path dir_entries base_of
stat files name = if not (valid_path name) then err invalid_path else elim (find files name) [
  | some data' ↦ ok (record { name = base_of name; size = length data'; is_dir = false })
  | none ↦ elim (dir_entries files name) [
    | some entries ↦ ok (record { name = base_of name; size = 0; is_dir = true })
    | none ↦ err not_exist
  ]
]
