-- ===== src/Pack/Source.antt =====
-- The file system that a pack is read from, an injected fs.FS without symbolic links. A file keeps
-- what fs.ReadFile gives of it; `none` is a file that cannot be read.
use cube_idp.Base.{Option, none, some, Text}
use cube_idp.Base.WalkDir.{Tree, Visited, file, dir, stat_at}
pub use cube_idp.Base.WalkDir.{file, dir, failed, directory, regular}
unfoldable pub use cube_idp.Base.WalkDir.{stat_at, walk_dir}

abbrev pub Node : Type 0
Node = Tree (Option Text)

abbrev pub Visit : Type 0
Visit = Visited (Option Text)

-- fs.ReadFile at such a path. `none` is an error.
unfoldable pub read_at : (fsys : Node) → (name : Text) → Option Text
unfolding stat_at
read_at fsys name = elim (stat_at fsys name) [ some (file content) ↦ content | _ ↦ none ]
