-- ===== src/Ref/Local/Contained.antt =====
-- Which files a local tree has (internal/ref/local.go).
use cube_idp.Base.{
  ℕ, ◌≡◌, refl, sym, ap, ◌∙◌, ◌≢◌, ◌↔◌, Bool, true, false, not, Option, none, some, List, [], ◌∷◌,
  Every, put, Result, ◌>>=◌, ok_of_bind, ok_is, some_is, or_error, or_error_iff, Begins,
  has_prefix_iff, if◌then◌else◌, and_iff, not_iff, Text, txt, ◌==◌, ==_iff, ok, err,
}
use cube_idp.Base.WalkDir.{Tree, Visited, failed, directory, regular, walk_dir}
use cube_idp.Base.WalkDir.Walked.{all_visits, final, walk_dir_iff}
use cube_idp.Ref.Grammar.{ParsedRef, RefError, escapes_root}
use cube_idp.Ref.Snapshot.{TreeFiles}
use cube_idp.Ref.Local.{
  DiskEntry, plain_file, symlink, special, FileKind, Os, is_regular_kind, is_inside, inside_root,
  contains_target, store_target, visit_symlink, visit_entry, visit, coded, walk_local_tree,
}

-- A path from the root that stays below it: it is no parent, and its first element is none.
abbrev pub StaysInside : (rel : Text) → Type 0
StaysInside rel = (rel ≢ txt "..") × (Begins (txt "../") rel → ⊥)

abbrev pub IsBelow : Option Text → Type 0
IsBelow none = ⊥
IsBelow (some rel) = StaysInside rel

is_inside_iff : (o : Option Text) → (is_inside o ≡ true) ↔ IsBelow o
unfolding is_inside
is_inside_iff none = ((λ h. cc), (λ h. elim h [ ]))
is_inside_iff (some rel) =
    and_iff (not_iff (==_iff rel (txt ".."))) (not_iff (has_prefix_iff (txt "../") rel))

module _ (os : Os) (p : ParsedRef) (root_abs : Text) where
  -- The target of a link is a path inside the real root, and is a file that can be read, or no
  -- regular file.
  pub record LinksInside (name : Text) : Type 0 where
    pub target : Text
    pub root_real : Text
    pub info : FileKind
    pub resolves : os.eval_symlinks (os.join root_abs name) ≡ some target
    pub root_resolves : os.eval_symlinks root_abs ≡ some root_real
    pub inside : IsBelow (os.rel root_real target)
    pub is_there : os.stat target ≡ some info
    pub readable : is_regular_kind info ≡ true → os.read_file target ≢ none

  abbrev pub IsSound : (name : Text) → DiskEntry → Type 0
  IsSound name symlink = LinksInside name
  IsSound name special = Unit
  IsSound name (plain_file content) = content ≢ none

  abbrev pub IsAdmitted : (name : Text) → Visited DiskEntry → Type 0
  IsAdmitted name failed = ⊥
  IsAdmitted name directory = os.is_done (some name) ≡ false
  IsAdmitted name (regular e) =
      (os.is_done (some name) ≡ false) × ((name == txt ".") ≡ false → IsSound name e)

  abbrev pub target_content : (target : Text) → Option FileKind → Option (List ℕ)
  target_content target none = none
  target_content target (some info) = if is_regular_kind info then os.read_file target else none

  -- The content that the target of a link gives the file at the link.
  abbrev pub link_content : (target : Option Text) → Option (List ℕ)
  link_content none = none
  link_content (some target) = target_content target (os.stat target)

  -- What an entry stores under its name.
  abbrev pub stored : (name : Text) → DiskEntry → Option (List ℕ)
  stored name symlink = link_content (os.eval_symlinks (os.join root_abs name))
  stored name special = none
  stored name (plain_file content) = content

  abbrev pub put_some : TreeFiles → (name : Text) → Option (List ℕ) → TreeFiles
  put_some files name none = files
  put_some files name (some data') = put files name data'

  abbrev pub with_visit : Text → Visited DiskEntry → TreeFiles → TreeFiles
  with_visit name failed files = files
  with_visit name directory files = files
  with_visit name (regular e) files =
      if name == txt "." then files else put_some files name (stored name e)

  -- The files of some visits, stored one after the other.
  abbrev pub files_of : List (Text × Visited DiskEntry) → TreeFiles → TreeFiles
  files_of [] files = files
  files_of ((name, v) ∷ rest) files = files_of rest (with_visit name v files)

  store_target-ok :
      (name target : Text) (info : FileKind) (files out : TreeFiles)
      → store_target os p root_abs name target info files ≡ ok out
      → (is_regular_kind info ≡ true → os.read_file target ≢ none)
        × (out ≡ put_some files name (if is_regular_kind info then os.read_file target else none))
  unfolding store_target
  store_target-ok name target info files out h =
      by_kind (is_regular_kind info) (os.read_file target) h
    where
      by_kind :
          (is_file : Bool) (content : Option (List ℕ))
          → Path
              (Result (Option RefError) TreeFiles)
              (if not is_file
                then ok files
                else (or_error none content >>= λ data'. ok (put files name data')))
              (ok out)
          → (is_file ≡ true → content ≢ none)
            × (out ≡ put_some files name (if is_file then content else none))
      by_kind false content h = ((λ e. cc), sym (ok_is h))
      by_kind true none h = cc
      by_kind true (some data') h = ((λ _ e. cc), sym (ok_is h))

  store_target_stores :
      (name target : Text) (info : FileKind) (files : TreeFiles)
      → (is_regular_kind info ≡ true → os.read_file target ≢ none)
      → store_target os p root_abs name target info files
        ≡ ok (put_some files name (if is_regular_kind info then os.read_file target else none))
  unfolding store_target
  store_target_stores name target info files n =
      by_kind (is_regular_kind info) (os.read_file target) n
    where
      by_kind :
          (is_file : Bool) (content : Option (List ℕ))
          → (is_file ≡ true → content ≢ none)
          → Path
              (Result (Option RefError) TreeFiles)
              (if not is_file
                then ok files
                else (or_error none content >>= λ data'. ok (put files name data')))
              (ok (put_some files name (if is_file then content else none)))
      by_kind false content n = refl
      by_kind true none n = absurd (n refl refl)
      by_kind true (some data') n = refl

  contains_target-some :
      (target : Text) (inside : Bool)
      → contains_target os p root_abs target ≡ some inside
      → (root_real : Text) × (os.eval_symlinks root_abs ≡ some root_real)
        × (inside ≡ is_inside (os.rel root_real target))
  unfolding contains_target
  contains_target-some target inside h = by_root (os.eval_symlinks root_abs) h
    where
      by_root :
          (o : Option Text)
          → inside_root os p root_abs o target ≡ some inside
          → (root_real : Text) × (o ≡ some root_real)
            × (inside ≡ is_inside (os.rel root_real target))
      by_root none h = cc
      by_root (some root_real) h = (root_real, refl, sym (some_is h))

  visit_symlink-ok :
      (name : Text) (files out : TreeFiles)
      → visit_symlink os p root_abs name files ≡ ok out
      → LinksInside name × (out ≡ put_some files name (stored name symlink))
  unfolding visit_symlink
  visit_symlink-ok name files out h =
      let (target, e, h₁) =
        ok_of_bind (or_error none (os.eval_symlinks (os.join root_abs name))) _ h in
      let (inside, c, h₂) =
        ok_of_bind (or_error none (contains_target os p root_abs target)) _ h₁ in
      let resolves = (or_error_iff none _ target).0 e in
      let (root_real, r, i) =
        contains_target-some target inside ((or_error_iff none _ inside).0 c) in
      by_test target root_real inside resolves r i h₂
    where
      by_test :
          (target root_real : Text) (inside : Bool)
          → os.eval_symlinks (os.join root_abs name) ≡ some target
          → os.eval_symlinks root_abs ≡ some root_real
          → inside ≡ is_inside (os.rel root_real target)
          → (if not inside
              then err (some (escapes_root p.ref name))
              else (or_error none (os.stat target) >>= λ info.
                  store_target os p root_abs name target info files))
            ≡ ok out
          → LinksInside name × (out ≡ put_some files name (stored name symlink))
      by_test target root_real false e r i h = cc
      by_test target root_real true e r i h =
          let (info, s, h₁) = ok_of_bind (or_error none (os.stat target)) _ h in
          let there = (or_error_iff none (os.stat target) info).0 s in
          let (readable, o) = store_target-ok name target info files out h₁ in
          (
            record {
              target = target;
              root_real = root_real;
              info = info;
              resolves = e;
              root_resolves = r;
              inside = (is_inside_iff (os.rel root_real target)).0 (sym i);
              is_there = there;
              readable = readable;
            },
            rw (e, there) o,
          )

  visit_symlink_stores :
      (name : Text) (files : TreeFiles)
      → LinksInside name
      → visit_symlink os p root_abs name files ≡ ok (put_some files name (stored name symlink))
  unfolding visit_symlink contains_target
  visit_symlink_stores name files l =
      let inside = (is_inside_iff (os.rel l.root_real l.target)).1 l.inside in
      rw (l.resolves, l.root_resolves, inside, l.is_there)
        (store_target_stores name l.target l.info files l.readable)

  visit_entry_iff :
      (name : Text) (e : DiskEntry) (files out : TreeFiles)
      → (visit_entry os p root_abs name e files ≡ ok out)
        ↔ (IsSound name e × (out ≡ put_some files name (stored name e)))
  unfolding visit_entry
  visit_entry_iff name symlink files out = (
    visit_symlink-ok name files out,
    (λ h. visit_symlink_stores name files h.0 ∙ ap ok (sym h.1)),
  )
  visit_entry_iff name special files out = ((λ h. (tt, sym (ok_is h))), (λ h. ap ok (sym h.1)))
  visit_entry_iff name (plain_file none) files out = ((λ h. cc), (λ h. absurd (h.0 refl)))
  visit_entry_iff name (plain_file (some data')) files out =
      ((λ h. ((λ e. cc), sym (ok_is h))), (λ h. ap ok (sym h.1)))

  visit_iff :
      (name : Text) (v : Visited DiskEntry) (files out : TreeFiles)
      → (visit os p root_abs name v files ≡ ok out)
        ↔ (IsAdmitted name v × (out ≡ with_visit name v files))
  unfolding visit
  visit_iff name failed files out = ((λ h. cc), (λ h. elim h.0 [ ]))
  visit_iff name directory files out = by_test (os.is_done (some name))
    where
      by_test :
          (done : Bool)
          → (Path
              (Result (Option RefError) TreeFiles)
              (if done then err none else ok files)
              (ok out))
            ↔ ((done ≡ false) × (out ≡ files))
      by_test true = ((λ h. cc), (λ h. cc))
      by_test false = ((λ h. (refl, sym (ok_is h))), (λ h. ap ok (sym h.1)))
  visit_iff name (regular e) files out =
      by_tests (os.is_done (some name)) (name == txt ".") (visit_entry_iff name e files out)
    where
      by_tests :
          (done top : Bool)
          → (visit_entry os p root_abs name e files ≡ ok out)
            ↔ (IsSound name e × (out ≡ put_some files name (stored name e)))
          → (Path
              (Result (Option RefError) TreeFiles)
              (if done
                then err none
                else if top
                then ok files
                else visit_entry os p root_abs name e files)
              (ok out))
            ↔ (((done ≡ false) × (top ≡ false → IsSound name e))
                × (out ≡ (if top then files else put_some files name (stored name e))))
      by_tests true top entry = ((λ h. cc), (λ h. cc))
      by_tests false true entry =
          ((λ h. ((refl, (λ e. cc)), sym (ok_is h))), (λ h. ap ok (sym h.1)))
      by_tests false false entry = (
        (λ h. let (sound, o) = entry.0 h in ((refl, (λ _. sound)), o)),
        (λ h. entry.1 ((h.0).1 refl, h.1)),
      )

  final-files_of :
      (l : List (Text × Visited DiskEntry)) (files : TreeFiles)
      → final (visit os p root_abs) IsAdmitted with_visit visit_iff l files ≡ files_of l files
  final-files_of [] files = refl
  final-files_of ((name, v) ∷ rest) files = final-files_of rest (with_visit name v files)

  coded_iff :
      (r : Result (Option RefError) TreeFiles) (files : TreeFiles)
      → (coded os p root_abs r ≡ ok files) ↔ (r ≡ ok files)
  coded_iff (ok out) files = ((λ h. ap ok (ok_is h)), (λ h. ap ok (ok_is h)))
  coded_iff (err none) files = ((λ h. cc), (λ h. cc))
  coded_iff (err (some e)) files = ((λ h. cc), (λ h. cc))

  -- A local directory resolves exactly if its root can be opened, all below can be listed, the
  -- context is live at every entry, every regular file can be read, and every symbolic link leads
  -- to something that is there, inside the real root, and readable if it is a regular file. The
  -- tree then has exactly the regular files under their paths, and under the path of a link what
  -- its target holds if that is a regular file.
  pub walk_local_tree_iff :
      (root : Tree DiskEntry) (files : TreeFiles)
      → os.open_root root_abs ≡ some root
      → (walk_local_tree os p root_abs ≡ ok files) ↔ (
          Every (λ x. IsAdmitted x.0 x.1) (all_visits root (txt "."))
          × (files ≡ files_of (all_visits root (txt ".")) []))
  unfolding walk_local_tree
  walk_local_tree_iff root files opened =
      let walk =
        walk_dir_iff (visit os p root_abs) IsAdmitted with_visit visit_iff root (txt ".") []
          files in
      let all = final-files_of (all_visits root (txt ".")) [] in
      let code = coded_iff (walk_dir (visit os p root_abs) root (txt ".") []) files in
      rw opened (
        (λ h. let (admitted, e) = walk.0 (code.0 h) in (admitted, e ∙ all)),
        (λ h. code.1 (walk.1 (h.0, h.1 ∙ sym all))),
      )
