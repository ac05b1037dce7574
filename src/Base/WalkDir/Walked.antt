-- ===== src/Base/WalkDir/Walked.antt =====
-- fs.WalkDir as a loop over the list of what it visits.
use mathlib.Core.Path.{◌≡◌, refl, sym, ap, ◌∙◌}
use mathlib.Core.Logic.{◌↔◌}
use mathlib.Core.Bool.{Bool, true, false}
use mathlib.Core.Option.{Option, none, some}
use mathlib.Core.List.{List, [], ◌∷◌, ◌++◌}
use cube_idp.Base.Tests.{Text, if◌then◌else◌}
use cube_idp.Base.Lists.{Every}
use cube_idp.Base.Paths.{path_join}
use cube_idp.Base.Outcome.{Result, ok, ◌>>=◌, bind_ext, bind_assoc, bind-ok, ok_of_bind}
use cube_idp.Base.WalkDir.{
  Tree, Entries, file, dir, bare, entry, Visited, failed, directory, regular, stat_at, walk_node,
  walk_entries, walk_dir,
}

-- What a walk visits, in order: a directory before its entries.
unfoldable mutual
  pub visits : {L : Type 0} → (name : Text) → Tree L → List (Text × Visited L)
  visits name (file content) = (name, regular content) ∷ []
  visits name (dir listable entries) =
      (name, directory) ∷ (if listable then [] else (name, failed) ∷ [])
      ++ entry_visits name entries

  entry_visits : {L : Type 0} → (parent : Text) → Entries L → List (Text × Visited L)
  entry_visits parent bare = []
  entry_visits parent (entry name node rest) =
      visits (path_join parent name) node ++ entry_visits parent rest

abbrev pub visits_of : {L : Type 0} → (root : Text) → Option (Tree L) → List (Text × Visited L)
visits_of root none = (root, failed) ∷ []
visits_of root (some node) = visits root node

unfoldable pub all_visits : {L : Type 0} → (fsys : Tree L) → (root : Text) → List (Text × Visited L)
all_visits fsys root = visits_of root (stat_at fsys root)

module _ {E L S : Type 0} (visit : Text → Visited L → S → Result E S) where
  abbrev pub each : List (Text × Visited L) → S → Result E S
  each [] s = ok s
  each ((name, v) ∷ rest) s = visit name v s >>= λ s'. each rest s'

  each-append :
      (front back : List (Text × Visited L)) (s : S)
      → each (front ++ back) s ≡ (each front s >>= λ s'. each back s')
  each-append [] back s = refl
  each-append ((name, v) ∷ front) back s =
      bind_ext (visit name v s) (λ s'. each (front ++ back) s')
        (λ s'. each front s' >>= λ s''. each back s'') (λ s'. each-append front back s')
      ∙ sym (bind_assoc (visit name v s) (λ s'. each front s') (λ s''. each back s''))

  -- The visits of a directory, by its own first ones.
  each-dir :
      (name : Text) (listable : Bool) (after : List (Text × Visited L)) (s : S)
      → each ((if listable then [] else (name, failed) ∷ []) ++ after) s
        ≡ ((if listable then ok s else visit name failed s) >>= λ s'. each after s')
  each-dir name true after s = refl
  each-dir name false after s = refl

  mutual
    unfolding walk_node visits

    walk_node-each :
        (name : Text) (node : Tree L) (s : S)
        → walk_node visit name node s ≡ each (visits name node) s
    walk_node-each name (file content) s = sym (bind-ok (visit name (regular content) s))
    walk_node-each name (dir listable entries) s = bind_ext (visit name directory s) _ _ (λ s'.
        bind_ext (if listable then ok s' else visit name failed s') _ _
          (λ s''. walk_entries-each name entries s'')
        ∙ sym (each-dir name listable (entry_visits name entries) s'))

    walk_entries-each :
        (parent : Text) (entries : Entries L) (s : S)
        → walk_entries visit parent entries s ≡ each (entry_visits parent entries) s
    walk_entries-each parent bare s = refl
    walk_entries-each parent (entry name node rest) s =
        bind_ext (walk_node visit (path_join parent name) node s) _ _
          (λ s'. walk_entries-each parent rest s')
        ∙ ap (λ r. r >>= λ s'. each (entry_visits parent rest) s')
            (walk_node-each (path_join parent name) node s)
        ∙ sym (each-append (visits (path_join parent name) node) (entry_visits parent rest) s)

  pub walk_dir-each :
      (fsys : Tree L) (root : Text) (s : S)
      → walk_dir visit fsys root s ≡ each (all_visits fsys root) s
  unfolding walk_dir all_visits
  walk_dir-each fsys root s = by_node (stat_at fsys root)
    where
      by_node :
          (o : Option (Tree L))
          → elim o [ none ↦ visit root failed s | some node ↦ walk_node visit root node s ]
            ≡ each (visits_of root o) s
      by_node none = sym (bind-ok (visit root failed s))
      by_node (some node) = walk_node-each root node s

-- A walk whose function succeeds exactly at clean visits, and then steps the state.
module _ {E L S : Type 0} (visit : Text → Visited L → S → Result E S)
    (IsClean : Text → Visited L → Type 0) (next : Text → Visited L → S → S)
    (step : (name : Text) (v : Visited L) (s s' : S)
      → (visit name v s ≡ ok s') ↔ (IsClean name v × (s' ≡ next name v s))) where
  abbrev pub final : List (Text × Visited L) → S → S
  final [] s = s
  final ((name, v) ∷ rest) s = final rest (next name v s)

  abbrev pub AreClean : List (Text × Visited L) → Type 0
  AreClean = Every (λ x. IsClean x.0 x.1)

  clean_of_each :
      (l : List (Text × Visited L)) (s s' : S)
      → each visit l s ≡ ok s'
      → AreClean l × (s' ≡ final l s)
  clean_of_each [] s s' h = (tt, cc)
  clean_of_each ((name, v) ∷ rest) s s' h =
      let (s₁, first, others) = ok_of_bind (visit name v s) (λ t. each visit rest t) h in
      let (clean, stepped) = (step name v s s₁).0 first in
      let (cleans, reached) = clean_of_each rest s₁ s' others in
      ((clean, cleans), reached ∙ ap (final rest) stepped)

  each_of_clean :
      (l : List (Text × Visited L)) (s : S) → AreClean l → each visit l s ≡ ok (final l s)
  each_of_clean [] s h = refl
  each_of_clean ((name, v) ∷ rest) s h =
      rw ((step name v s (next name v s)).1 (h.0, refl)) (each_of_clean rest (next name v s) h.1)

  pub walk_dir_iff :
      (fsys : Tree L) (root : Text) (s s' : S)
      → (walk_dir visit fsys root s ≡ ok s')
        ↔ (AreClean (all_visits fsys root) × (s' ≡ final (all_visits fsys root) s))
  walk_dir_iff fsys root s s' = (
    (λ h. clean_of_each (all_visits fsys root) s s' (sym (walk_dir-each visit fsys root s) ∙ h)),
    (λ h.
        walk_dir-each visit fsys root s
        ∙ each_of_clean (all_visits fsys root) s h.0
        ∙ ap ok (sym h.1)),
  )
