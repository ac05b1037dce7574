-- ===== src/Base/WalkDir.antt =====
-- fs.WalkDir of Go's io/fs over an fs.FS, which is the tree that it presents: a directory has its
-- entries in the order in which fs.ReadDir lists them. What a file holds is the parameter L.
pub mod Walked
use Prim.Native.Nat.{ℕ}
use mathlib.Core.Bool.{Bool, true, false}
use mathlib.Core.Option.{Option, none, some}
use mathlib.Core.List.{List, [], ◌∷◌}
use cube_idp.Base.Tests.{Text, txt, ◌==◌, if◌then◌else◌}
use cube_idp.Base.Paths.{path_join}
use cube_idp.Base.Outcome.{Result, ok, err, ◌>>=◌}

mutual
  pub data Tree (L : Type 0) : Type 0 where
    file : (content : L) → Tree L
    dir : (listable : Bool) (entries : Entries L) → Tree L

  pub data Entries (L : Type 0) : Type 0 where
    bare : Entries L
    entry : (name : Text) (node : Tree L) (rest : Entries L) → Entries L

pub find_entry : {L : Type 0} → Entries L → Text → Option (Tree L)
find_entry bare name = none
find_entry (entry k node rest) name = if k == name then some node else find_entry rest name

-- fs.Stat at a path of at most one element. `none` is an error.
unfoldable pub stat_at : {L : Type 0} → (fsys : Tree L) → (name : Text) → Option (Tree L)
unfolding find_entry
stat_at (file content) name = if name == txt "." then some (file content) else none
stat_at (dir listable entries) name =
    if name == txt "." then some (dir listable entries) else find_entry entries name

-- What fs.WalkDir tells its function of a path: an error, a directory, or a file.
pub data Visited (L : Type 0) : Type 0 where
  failed : Visited L
  directory : Visited L
  regular : (content : L) → Visited L

-- fs.WalkDir with a function that never returns fs.SkipDir or fs.SkipAll, and that keeps a state.
module _ {E L S : Type 0} (visit : Text → Visited L → S → Result E S) where
  unfoldable mutual
    pub walk_node : (name : Text) → Tree L → S → Result E S
    walk_node name (file content) s = visit name (regular content) s
    walk_node name (dir listable entries) s = visit name directory s >>= λ s'.
        (if listable then ok s' else visit name failed s') >>= λ s''. walk_entries name entries s''

    pub walk_entries : (parent : Text) → Entries L → S → Result E S
    walk_entries parent bare s = ok s
    walk_entries parent (entry name node rest) s =
        walk_node (path_join parent name) node s >>= λ s'. walk_entries parent rest s'

  unfoldable pub walk_dir : (fsys : Tree L) → (root : Text) → S → Result E S
  unfolding stat_at
  walk_dir fsys root s = elim (stat_at fsys root) [
    | none ↦ visit root failed s
    | some node ↦ walk_node root node s
  ]
