-- ===== src/Pack/Deps/Graph.antt =====
-- resolveDependencies of internal/pack/deps.go: the edges of one instance.
use cube_idp.Base.{
  ◌≡◌, sym, ◌∙◌, ◌≢◌, ◌⊎◌, inl, inr, true, ◌||◌, List, [], ◌∷◌, ◌++◌, arith, subst, false≢true,
  length, contains, contains-nil, contains-head, contains-append, IsNodup, IsNodup-snoc, ok_of_bind,
  if◌then◌else◌, Bool-cases, Text, ◌==◌, ==-refl, ==_iff, ok,
}
use cube_idp.Pack.Deps.{Instance, new_instance_index, lookup, resolve_targets}
use cube_idp.Pack.Deps.Edges.{Names, lookup-ok}

-- The edges of one instance: no two equal, none to itself, one for each target, and no other.
pub record IsEdges (insts : List Instance) (ids : List Text) (from : Text)
    (targets edges : List Text) : Type 0 where
  pub distinct : IsNodup edges
  pub sound :
      (to : Text)
      → contains edges to ≡ true
      → (to ≢ from) × (target : Text) × (contains targets target ≡ true) × Names insts ids target to
  pub complete :
      (target : Text)
      → contains targets target ≡ true
      → (to : Text) × Names insts ids target to × (contains edges to ≡ true)

-- What the loop over the targets makes of the edges found before.
record Extends (insts : List Instance) (ids : List Text) (from : Text)
    (targets before after : List Text) : Type 0 where
  distinct : IsNodup before → IsNodup after
  kept : (to : Text) → contains before to ≡ true → contains after to ≡ true
  sound :
      (to : Text)
      → contains after to ≡ true
      → (contains before to ≡ true)
        ⊎ ((to ≢ from)
            × (target : Text) × (contains targets target ≡ true)
            × Names insts ids target to)
  complete :
      (target : Text)
      → contains targets target ≡ true
      → (to : Text) × Names insts ids target to × (contains after to ≡ true)

abbrev add_edge : List Text → Text → List Text
add_edge edges to = if contains edges to then edges else edges ++ to ∷ []

contains-add_edge :
    (edges : List Text) (to x : Text)
    → contains (add_edge edges to) x ≡ (contains edges x || (to == x))
unfolding contains
contains-add_edge edges to x = ground (arith, contains-append edges (to ∷ []) x, ==_iff to x)

add_edge-IsNodup : (edges : List Text) (to : Text) → IsNodup edges → IsNodup (add_edge edges to)
add_edge-IsNodup edges to h = elim (Bool-cases (contains edges to)) [
  | inl old ↦ rw old h
  | inr new ↦ rw new (IsNodup-snoc edges to h new)
]

module _ (insts : List Instance) (ids : List Text) (same : length ids ≡ length insts) where
  Extends-cons :
      (from target to : Text) (targets edges after : List Text)
      → Names insts ids target to
      → to ≢ from
      → Extends insts ids from targets (add_edge edges to) after
      → Extends insts ids from (target ∷ targets) edges after
  unfolding contains
  Extends-cons from target to targets edges after names other h = record {
    distinct = λ d. h.distinct (add_edge-IsNodup edges to d);
    kept = λ x m. h.kept x (ground (arith, contains-add_edge edges to x));
    sound = λ x m. elim (h.sound x m) [
      | inl m' ↦ elim (Bool-cases (contains edges x)) [
        | inl old ↦ inl old
        | inr new ↦
            let e : to ≡ x = ground (arith, contains-add_edge edges to x, ==_iff to x) in
            inr (
              λ q. other (e ∙ q),
              target,
              contains-head target targets,
              subst (Names insts ids target) e names,
            )
      ]
      | inr (o, t, m', n) ↦ inr (o, t, ground (arith, m'), n)
    ];
    complete = λ t m. elim (Bool-cases (target == t)) [
      | inl e ↦ (
        to,
        subst (λ s. Names insts ids s to) ((==_iff target t).0 e) names,
        h.kept to (ground (arith, contains-add_edge edges to to, ==-refl to)),
      )
      | inr e ↦ h.complete t (ground (arith, e))
    ];
  }

  resolve_targets-Extends :
      (from : Text) (edges targets after : List Text)
      → resolve_targets (new_instance_index insts ids) from edges targets ≡ ok after
      → Extends insts ids from targets edges after
  unfolding resolve_targets contains
  resolve_targets-Extends from edges [] after h =
      let e : edges ≡ after = cc in
      record {
        distinct = λ d. subst IsNodup e d;
        kept = λ x m. rw (← e) m;
        sound = λ x m. inl (rw e m);
        complete = λ t m. absurd (false≢true m);
      }
  resolve_targets-Extends from edges (target ∷ targets) after h =
      let (to, found, h') = ok_of_bind (lookup (new_instance_index insts ids) target from) _ h in
      let (names, other) = lookup-ok insts ids same target from to found in
      Extends-cons from target to targets edges after names other
        (resolve_targets-Extends from (add_edge edges to) targets after h')

  pub resolve_targets-IsEdges :
      (from : Text) (targets edges : List Text)
      → resolve_targets (new_instance_index insts ids) from [] targets ≡ ok edges
      → IsEdges insts ids from targets edges
  resolve_targets-IsEdges from targets edges h =
      let x = resolve_targets-Extends from [] targets edges h in
      record {
        distinct = x.distinct tt;
        sound = λ to m. elim (x.sound to m) [
          | inl m' ↦ absurd (false≢true (sym (contains-nil to) ∙ m'))
          | inr r ↦ r
        ];
        complete = x.complete;
      }
