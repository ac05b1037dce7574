-- ===== src/Ref/Resolutions.antt =====
-- A small disk and a server for internal/ref: resolutions, digests and an open directory.
use cube_idp.Base.{
  ◌≡◌, refl, ◌↔◌, true, false, some, [], ◌∷◌, ◌++◌, arith, Every, contains, find, put, path_join,
  has_prefix, if◌then◌else◌, Text, txt, ◌==◌, ==_iff, ok, err,
}
use cube_idp.Base.WalkDir.{file, dir, bare, entry, stat_at, walk_node, walk_dir}
use cube_idp.Base.WalkDir.Walked.{all_visits}
use cube_idp.Ref.Grammar.{ParsedRef, scheme_local, scheme_git, escapes_root, not_implemented, parse}
use cube_idp.Ref.Snapshot.{TreeFiles, TreeInfo}
use cube_idp.Ref.Snapshot.Opened.{OpenDir, remaining, read_until_eof, read_until_eof-remaining}
use cube_idp.Ref.Digest.{file_digest, tree_digest, paths_of}
use cube_idp.Ref.Digest.Content.{tree_digest_same}
use cube_idp.Ref.Local.{
  plain_file, symlink, special, kind_dir, kind_regular, Os, ResolvedTree, ResolvedFile, is_inside,
  walk_local_tree, local_tree, local_file,
}
use cube_idp.Ref.Local.Contained.{IsAdmitted, files_of, walk_local_tree_iff}
use cube_idp.Ref.Resolve.{Client, resolve_tree, resolve_file}
use cube_idp.Ref.Resolve.Pinned.{
  FilePinned, TreePinned, resolve_file-FilePinned, resolve_tree-TreePinned,
}

-- Everything stands in /r; a link leads to a file there, or outside.
abbrev disk : (link_target : Text) → Os
disk link_target = record {
  abs = λ path. some (txt "/r");
  stat = λ path. if path == txt "/r" then some kind_dir else some kind_regular;
  read_file = λ path. some (txt "linked");
  open_root = λ path. some (
      dir true (
        entry (txt "a.yaml") (file (plain_file (some (txt "A"))))
          (entry (txt "b.yaml") (file symlink) (entry (txt "pipe") (file special) bare))));
  eval_symlinks = λ path. if path == txt "/r" then some path else some link_target;
  join = λ root name. root ++ b'/' ∷ name;
  rel = λ root target. if target == txt "/r/c" then some (txt "c") else some (txt "../c");
  is_done = λ place. false;
  sha256 = λ bytes. bytes;
}

abbrev inside : Os
inside = disk (txt "/r/c")

abbrev outside : Os
outside = disk (txt "/c")

abbrev client : Client
client = record {
  new_request = λ url. some tt;
  do_request = λ url. some (record { status_code = 200; body = some (txt "{}") });
}

abbrev files : TreeFiles
files = (txt "a.yaml", txt "A") ∷ (txt "b.yaml", txt "linked") ∷ []

abbrev here : ParsedRef
here = record { ref = txt "./p"; scheme = scheme_local; location = txt "./p" }

program : Unit {0}
unfolding resolve_tree resolve_file parse walk_local_tree local_tree local_file stat_at walk_node
    walk_dir ◌==◌ has_prefix put path_join is_inside
program = tt

walked : walk_local_tree inside here (txt "/r") ≡ ok files
unfolding program
walked = refl

-- A link out of the root is refused by name.
escaping : walk_local_tree outside here (txt "/r") ≡ err (escapes_root (txt "./p") (txt "b.yaml"))
unfolding program
escaping = refl

deferred :
    resolve_tree inside client (txt "git+https://h/r")
    ≡ err (not_implemented scheme_git (txt "git+https://h/r"))
unfolding program
deferred = refl

walk_local_tree_iff_example : (walk_local_tree inside here (txt "/r") ≡ ok files) ↔ (
    Every
      (λ x. IsAdmitted inside here (txt "/r") x.0 x.1)
      (all_visits
        (dir true (
          entry
            (txt "a.yaml")
            (file (plain_file (some (txt "A"))))
            (entry (txt "b.yaml") (file symlink) (entry (txt "pipe") (file special) bare))))
        (txt "."))
    × (files
        ≡ files_of inside here
            (txt "/r")
            (all_visits
              (dir true (
                entry
                  (txt "a.yaml")
                  (file (plain_file (some (txt "A"))))
                  (entry (txt "b.yaml") (file symlink) (entry (txt "pipe") (file special) bare))))
              (txt "."))
            []))
walk_local_tree_iff_example = walk_local_tree_iff inside here (txt "/r") _ files refl

abbrev resolved_tree : ResolvedTree
resolved_tree = record {
  files = files;
  pin = record { ref = txt "./p"; source = txt "/r"; digest = tree_digest inside.sha256 files };
}

resolve_tree-TreePinned_example : TreePinned inside client (txt "./p") resolved_tree
unfolding program
resolve_tree-TreePinned_example =
    resolve_tree-TreePinned inside client (txt "./p") resolved_tree refl

abbrev fetched : ResolvedFile
fetched = record {
  content = txt "{}";
  pin = record {
    ref = txt "https://h/v.json";
    source = txt "https://h/v.json";
    digest = file_digest inside.sha256 (txt "{}");
  };
}

resolve_file-FilePinned_example : FilePinned inside client (txt "https://h/v.json") fetched
unfolding program
resolve_file-FilePinned_example =
    resolve_file-FilePinned inside client (txt "https://h/v.json") fetched refl

tree_digest_same_example :
    tree_digest inside.sha256 files
    ≡ tree_digest inside.sha256 ((txt "b.yaml", txt "linked") ∷ (txt "a.yaml", txt "A") ∷ [])
unfolding contains ◌==◌ find paths_of
tree_digest_same_example =
    tree_digest_same inside.sha256 files
      ((txt "b.yaml", txt "linked") ∷ (txt "a.yaml", txt "A") ∷ []) (refl, (refl, tt))
      (refl, (refl, tt))
      (λ path. ground (arith, ==_iff (txt "a.yaml") path, ==_iff (txt "b.yaml") path))

abbrev info : Text → TreeInfo
info name = record { name = name; size = 0; is_dir = false }

abbrev opened : OpenDir
opened = record { entries = info (txt "a") ∷ info (txt "b") ∷ info (txt "c") ∷ []; offset = 0 }

read_until_eof-remaining_example : read_until_eof 4 2 opened ≡ some (remaining opened)
read_until_eof-remaining_example = read_until_eof-remaining 4 1 opened (omega arith)
