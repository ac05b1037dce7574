-- ===== src/Ref/Snapshot/Listed.antt =====
-- What the directories of internal/ref/tree.go list.
use cube_idp.Base.{
  ℕ, ◌≡◌, refl, sym, ap, ◌∙◌, inl, inr, Bool, true, false, ◌&&◌, ◌||◌, Option, none, some, List, [],
  ◌∷◌, map, arith, subst, length, contains, IsNodup, drop, text_le, insert_text, sort_texts,
  IsSorted, sort_texts-IsSorted, contains-sort_texts, sort_texts-IsNodup, has_prefix, if◌then◌else◌,
  Bool-cases, Text, txt, ◌==◌, ==_iff,
}
use cube_idp.Ref.Snapshot.{
  TreeFiles, TreeInfo, cut_slash, info_of, put_child, child_info, add_children, insert_info,
  sort_infos, dir_prefix, sorted_if, dir_entries,
}

abbrev pub names : List TreeInfo → List Text
names infos = map (λ x. x.name) infos

-- The name of the child of a directory that a stored path leads to.
abbrev pub child_name : (prefix path : Text) → Text
child_name prefix path = (cut_slash (drop (length prefix) path)).0

-- A stored path leads to a child of this name.
pub has_child : (prefix : Text) → TreeFiles → (name : Text) → Bool
has_child prefix [] name = false
has_child prefix ((path, data') ∷ files) name =
    (has_prefix prefix path && (child_name prefix path == name)) || has_child prefix files name

pub has_path : (prefix : Text) → TreeFiles → Bool
has_path prefix [] = false
has_path prefix ((path, data') ∷ files) = has_prefix prefix path || has_path prefix files

cut_slash-whole : (s : Text) → (cut_slash s).1 ≡ false → (cut_slash s).0 ≡ s
unfolding cut_slash
cut_slash-whole [] h = refl
cut_slash-whole (c ∷ s) h = ground (arith, cut_slash-whole s, h)

name-child_info : (rest : Text) (data' : List ℕ) → (child_info rest data').name ≡ (cut_slash rest).0
unfolding child_info info_of
name-child_info rest data' = by_nested (cut_slash rest).1 refl
  where
    by_nested :
        (nested : Bool)
        → (cut_slash rest).1 ≡ nested
        → (info_of nested (cut_slash rest).0 rest data').name ≡ (cut_slash rest).0
    by_nested true e = refl
    by_nested false e = sym (cut_slash-whole rest e)

contains-put_child :
    (children : List TreeInfo) (info : TreeInfo) (name : Text)
    → contains (names (put_child children info)) name
      ≡ (contains (names children) name || (info.name == name))
unfolding contains put_child
contains-put_child [] info name = ground arith
contains-put_child (x ∷ children) info name = ground (
  arith,
  contains-put_child children info name,
  ==_iff x.name info.name,
  ==_iff x.name name,
  ==_iff info.name name,
)

put_child-IsNodup :
    (children : List TreeInfo) (info : TreeInfo)
    → IsNodup (names children)
    → IsNodup (names (put_child children info))
unfolding contains put_child
put_child-IsNodup [] info h = (refl, tt)
put_child-IsNodup (x ∷ children) info h = elim (Bool-cases (x.name == info.name)) [
  | inl t ↦
      rw t
        (subst (λ n. contains (names children) n ≡ false) ((==_iff x.name info.name).0 t) h.0, h.1)
  | inr t ↦ rw t (
    ground (
      arith,
      contains-put_child children info x.name,
      h.0,
      t,
      ==_iff x.name info.name,
      ==_iff info.name x.name,
    ),
    put_child-IsNodup children info h.1,
  )
]

-- The loop.
pub record Added (prefix : Text) (before : Bool × List TreeInfo) (files : TreeFiles)
    (after : Bool × List TreeInfo) : Type 0 where
  pub members :
      (name : Text)
      → contains (names after.1) name
        ≡ (contains (names before.1) name || has_child prefix files name)
  pub distinct : IsNodup (names before.1) → IsNodup (names after.1)
  pub found : after.0 ≡ (before.0 || has_path prefix files)

Added-later :
    (prefix path : Text) (data' : List ℕ) (exists : Bool) (children : List TreeInfo)
    (files : TreeFiles) (after : Bool × List TreeInfo) (b : Bool)
    → has_prefix prefix path ≡ b
    → Added prefix
        (if b
          then (true, put_child children (child_info (drop (length prefix) path) data'))
          else (exists, children))
        files
        after
    → Added prefix (exists, children) ((path, data') ∷ files) after
unfolding has_child has_path
Added-later prefix path data' exists children files after true e h =
    let info = child_info (drop (length prefix) path) data' in
    record {
      members = λ name. ground (
        arith,
        h.members name,
        contains-put_child children info name,
        name-child_info (drop (length prefix) path) data',
        e,
      );
      distinct = λ d. h.distinct (put_child-IsNodup children info d);
      found = ground (arith, h.found, e);
    }
Added-later prefix path data' exists children files after false e h = record {
  members = λ name. ground (arith, h.members name, e);
  distinct = h.distinct;
  found = ground (arith, h.found, e);
}

add_children-Added :
    (prefix : Text) (files : TreeFiles) (before : Bool × List TreeInfo)
    → Added prefix before files (add_children prefix before files)
unfolding add_children has_child has_path
add_children-Added prefix [] before = record {
  members = λ name. ground arith;
  distinct = λ d. d;
  found = ground arith;
}
add_children-Added prefix ((path, data') ∷ files) (exists, children) =
    Added-later prefix path data' exists children files _ (has_prefix prefix path) refl
      (add_children-Added prefix files _)

-- The names of the sorted entries are the sorted names.
names-insert_info :
    (info : TreeInfo) (infos : List TreeInfo)
    → names (insert_info info infos) ≡ insert_text info.name (names infos)
unfolding insert_info insert_text
names-insert_info info [] = refl
names-insert_info info (x ∷ infos) = elim (Bool-cases (text_le info.name x.name)) [
  | inl e ↦ rw e refl
  | inr e ↦ rw e (ap (λ l. x.name ∷ l) (names-insert_info info infos))
]

names-sort_infos : (infos : List TreeInfo) → names (sort_infos infos) ≡ sort_texts (names infos)
unfolding sort_infos sort_texts
names-sort_infos [] = refl
names-sort_infos (info ∷ infos) =
    names-insert_info info (sort_infos infos) ∙ ap (insert_text info.name) (names-sort_infos infos)

-- The entries of a directory that is there, or what keeps it from being there.
abbrev pub Listing : TreeFiles → (dir : Text) → Option (List TreeInfo) → Type 0
Listing files dir none = ((dir == txt ".") ≡ false) × (has_path (dir_prefix dir) files ≡ false)
Listing files dir (some entries) =
    (((dir == txt ".") || has_path (dir_prefix dir) files) ≡ true)
    × IsSorted (names entries)
    × IsNodup (names entries)
    × ((name : Text) → contains (names entries) name ≡ has_child (dir_prefix dir) files name)

sorted_if-Listing :
    (files : TreeFiles) (dir : Text) (state : Bool × List TreeInfo)
    → Added (dir_prefix dir) (dir == txt ".", []) files state
    → Listing files dir (sorted_if state)
unfolding contains sorted_if
sorted_if-Listing files dir (true, children) h = (
  sym h.found,
  subst IsSorted (sym (names-sort_infos children)) (sort_texts-IsSorted (names children)),
  subst IsNodup (sym (names-sort_infos children))
      (sort_texts-IsNodup (names children) (h.distinct tt)),
  λ name.
      ap (λ l. contains l name) (names-sort_infos children)
      ∙ contains-sort_texts (names children) name
      ∙ h.members name,
)
sorted_if-Listing files dir (false, children) h =
    let f = h.found in neither (dir == txt ".") (has_path (dir_prefix dir) files) f
  where
    neither : (a b : Bool) → false ≡ (a || b) → (a ≡ false) × (b ≡ false)
    neither a b e = ground (arith, e)

-- A directory of a snapshot is there exactly if it is the root or a stored path lies under it, and it
-- then lists, in ascending order and once each, exactly the names of the children that the stored
-- paths lead to.
pub dir_entries-Listing :
    (files : TreeFiles) (dir : Text) → Listing files dir (dir_entries files dir)
unfolding dir_entries
dir_entries-Listing files dir =
    sorted_if-Listing files dir _ (add_children-Added (dir_prefix dir) files (dir == txt ".", []))
