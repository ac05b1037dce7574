-- ===== src/Pack/Deps/Edges.antt =====
-- resolveDependencies of internal/pack/deps.go: which edges the graph has.
use cube_idp.Base.{
  append_assoc, append-nil, ◌<◌, ◌≡◌, refl, sym, ◌∙◌, ◌≢◌, ◌⊎◌, inl, inr, true, false, ◌||◌, List,
  [], ◌∷◌, ◌++◌, arith, subst, false≢true, length, contains, contains-nil, find, put, find-put,
  Result, ◌>>=◌, if◌then◌else◌, Bool-cases, Text, ◌==◌, ==_iff, ok, err,
}
use cube_idp.Pack.Errors.{PackError, unknown_dependency, ambiguous_dependency, dependency_cycle}
use cube_idp.Pack.Deps.{
  Instance, InstanceIndex, slice_at, fill_index, new_instance_index, pick_candidate, lookup,
}

-- The identities of the instances that carry a name, in the order of the setup.
pub carriers : Text → List Instance → List Text → List Text
carriers name [] ids = []
carriers name (inst ∷ rest) [] = []
carriers name (inst ∷ rest) (id ∷ ids) =
    let later = carriers name rest ids in if inst.name == name then id ∷ later else later

-- A target names an instance by its identity or, where it is no identity, by a name that only one
-- instance carries.
abbrev pub Names : List Instance → List Text → (target id : Text) → Type 0
Names insts ids target id =
    (contains ids target ≡ true) × (id ≡ target)
    ⊎ (contains ids target ≡ false) × (carriers target insts ids ≡ id ∷ [])

slice_at-fill_index :
    (index : InstanceIndex) (insts : List Instance) (ids : List Text) (name : Text)
    → slice_at (fill_index index insts ids).by_name name
      ≡ slice_at index.by_name name ++ carriers name insts ids
unfolding fill_index carriers
slice_at-fill_index index [] ids name = sym (append-nil _)
slice_at-fill_index index (inst ∷ rest) [] name = sym (append-nil _)
slice_at-fill_index index (inst ∷ rest) (id ∷ ids) name =
    let extended = slice_at index.by_name inst.name ++ id ∷ [] in
    slice_at-fill_index
      (record { by_id = id ∷ index.by_id; by_name = put index.by_name inst.name extended }) rest ids
      name
    ∙ ground (
      arith,
      find-put index.by_name inst.name name extended,
      ==_iff inst.name name,
      append_assoc (slice_at index.by_name name) (id ∷ []) (carriers name rest ids),
    )

contains-fill_index :
    (index : InstanceIndex) (insts : List Instance) (ids : List Text) (x : Text)
    → length ids ≡ length insts
    → contains (fill_index index insts ids).by_id x ≡ (contains index.by_id x || contains ids x)
unfolding fill_index contains
contains-fill_index index [] [] x h = ground arith
contains-fill_index index [] (id ∷ ids) x h = absurd (omega arith)
contains-fill_index index (inst ∷ rest) [] x h = absurd (omega arith)
contains-fill_index index (inst ∷ rest) (id ∷ ids) x h =
    let extended = slice_at index.by_name inst.name ++ id ∷ [] in
    ground (
      arith,
      contains-fill_index
          (record { by_id = id ∷ index.by_id; by_name = put index.by_name inst.name extended }) rest
          ids x (omega arith),
    )

-- What one lookup answers, errors included.
abbrev pub LookedUp :
    List Instance → List Text → (target from : Text) → Result PackError Text → Type 0
LookedUp insts ids target from (ok to) = Names insts ids target to × (to ≢ from)
LookedUp insts ids target from (err (unknown_dependency f t)) =
    (f ≡ from) × (t ≡ target) × (contains ids target ≡ false) × (carriers target insts ids ≡ [])
LookedUp insts ids target from (err (ambiguous_dependency f t candidates)) =
    (f ≡ from)
    × (t ≡ target)
    × (contains ids target ≡ false)
    × (carriers target insts ids ≡ candidates)
    × (1 < length candidates)
LookedUp insts ids target from (err (dependency_cycle members)) =
    (members ≡ from ∷ []) × Names insts ids target from
LookedUp insts ids target from (err _) = ⊥

module _ (insts : List Instance) (ids : List Text) (same : length ids ≡ length insts) where
  abbrev index : InstanceIndex
  index = new_instance_index insts ids

  by_id_lem : (x : Text) → contains index.by_id x ≡ contains ids x
  unfolding new_instance_index
  by_id_lem x =
      contains-fill_index (record { by_id = []; by_name = [] }) insts ids x same
      ∙ rw (contains-nil x)

  by_name_lem : (x : Text) → slice_at index.by_name x ≡ carriers x insts ids
  unfolding new_instance_index find
  by_name_lem x = slice_at-fill_index (record { by_id = []; by_name = [] }) insts ids x

  not_itself :
      (target from id : Text)
      → Names insts ids target id
      → LookedUp insts ids target from
          (if id == from then err (dependency_cycle (from ∷ [])) else ok id)
  not_itself target from id names = elim (Bool-cases (id == from)) [
    | inl self ↦ rw self (refl, subst (Names insts ids target) ((==_iff id from).0 self) names)
    | inr other ↦ rw other (names, (λ e. false≢true (sym other ∙ (==_iff id from).1 e)))
  ]

  picked :
      (target from : Text) (candidates : List Text)
      → contains ids target ≡ false
      → carriers target insts ids ≡ candidates
      → LookedUp insts ids target from (
          pick_candidate from target candidates >>= λ id.
          if id == from then err (dependency_cycle (from ∷ [])) else ok id)
  unfolding pick_candidate
  picked target from [] unknown e = (refl, refl, unknown, e)
  picked target from (id ∷ []) unknown e = not_itself target from id (inr (unknown, e))
  picked target from (id ∷ other ∷ rest) unknown e = (refl, refl, unknown, e, omega arith)

  -- A lookup returns the instance that the target names, unless that is the instance which
  -- depends; it reports a target that names nothing, one whose name several instances carry (with
  -- all of these), and an instance that depends on itself.
  pub lookup-LookedUp :
      (target from : Text) → LookedUp insts ids target from (lookup index target from)
  unfolding lookup pick_candidate
  lookup-LookedUp target from = elim (Bool-cases (contains ids target)) [
    | inl known ↦
        rw (by_id_lem target, known, lookup) (not_itself target from target (inl (known, refl)))
    | inr unknown ↦
        rw (by_id_lem target, unknown, by_name_lem target, lookup)
          (picked target from _ unknown refl)
  ]

  pub lookup-ok :
      (target from to : Text)
      → lookup index target from ≡ ok to
      → Names insts ids target to × (to ≢ from)
  lookup-ok target from to h =
      subst (LookedUp insts ids target from) h (lookup-LookedUp target from)
