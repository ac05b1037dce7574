-- ===== src/Api/Packs/Valid.antt =====
-- Which pack lists api/config/v1alpha1/pack_validation.go accepts.
use cube_idp.Base.{
  ℕ, suc, ◌≡◌, refl, ◌↔◌, Bool, true, false, Option, none, some, List, [], ◌∷◌, ◌++◌, arith, Every,
  contains, IsNodup, Dict, find, put, find-put, if◌then◌else◌, Text, ◌==◌, ==_iff,
}
use cube_idp.Api.{PackSpec}
use cube_idp.Api.Errors.{FieldPath, index, Libraries, append-nil_iff, both_iff}
use cube_idp.Api.Packs.{duplicate_id, note_id, packs_path, validate_packs_from, validate_packs}
use cube_idp.Api.Packs.WellFormed.{IsValidPack, validate_pack_iff}

-- The ids that are written out.
pub explicit_ids : List PackSpec → List Text
explicit_ids [] = []
explicit_ids (p ∷ packs) = let rest = explicit_ids packs in if p.id == [] then rest else p.id ∷ rest

module _ (libraries : Libraries) where
  abbrev IsFree : Dict ℕ → Text → Type 0
  IsFree seen id = find seen id ≡ none

  -- What the loop accepts: the ids taken before do not come again.
  abbrev Accepted : Dict ℕ → List PackSpec → Type 0
  Accepted seen packs =
      Every (IsValidPack libraries) packs
      × IsNodup (explicit_ids packs)
      × Every (IsFree seen) (explicit_ids packs)

  IsFree-put_iff :
      (seen : Dict ℕ) (id : Text) (i : ℕ) (ids : List Text)
      → Every (IsFree (put seen id i)) ids ↔ ((contains ids id ≡ false) × Every (IsFree seen) ids)
  unfolding contains
  IsFree-put_iff seen id i [] = ((λ h. (refl, tt)), (λ h. tt))
  IsFree-put_iff seen id i (x ∷ ids) =
      let rest = IsFree-put_iff seen id i ids in
      (
        (λ h.
            let (absent, free) = rest.0 h.1 in
            (
              ground (arith, h.0, absent, find-put seen id x i, ==_iff id x, ==_iff x id),
              (ground (arith, h.0, find-put seen id x i), free),
            )),
        (λ h. (
          ground (arith, h.0, h.1.0, find-put seen id x i, ==_iff id x, ==_iff x id),
          rest.1 (ground (arith, h.0), h.1.1),
        )),
      )

  -- The id of one pack, and the ids behind it.
  id_iff :
      (seen : Dict ℕ) (i : ℕ) (path : FieldPath) (id : Text) (ids : List Text)
      → ((duplicate_id libraries seen path id ≡ [])
          × IsNodup ids
          × Every (IsFree (note_id libraries seen i id)) ids)
        ↔ (IsNodup (if id == [] then ids else id ∷ ids)
            × Every (IsFree seen) (if id == [] then ids else id ∷ ids))
  unfolding duplicate_id note_id
  id_iff seen i path id ids = by_test (id == []) (find seen id) refl refl
    where
      by_test :
          (empty : Bool) (o : Option ℕ)
          → (id == []) ≡ empty
          → find seen id ≡ o
          → ((duplicate_id libraries seen path id ≡ [])
              × IsNodup ids
              × Every (IsFree (note_id libraries seen i id)) ids)
            ↔ (IsNodup (if id == [] then ids else id ∷ ids)
                × Every (IsFree seen) (if id == [] then ids else id ∷ ids))
      by_test true o e f = rw e ((λ h. (h.1, h.2)), (λ h. (refl, h.0, h.1)))
      by_test false none e f =
          let free = IsFree-put_iff seen id i ids in
          rw (e, f)
            (
              (λ h. let (a, b) = free.0 h.2 in ((a, h.1), (refl, b))),
              (λ h. (refl, h.0.1, free.1 (h.0.0, h.1.1))),
            )
      by_test false (some first) e f = rw (e, f) ((λ h. cc), (λ h. cc))

  validate_packs_from_iff :
      (seen : Dict ℕ) (i : ℕ) (packs : List PackSpec)
      → (validate_packs_from libraries seen i packs ≡ []) ↔ Accepted seen packs
  unfolding validate_packs_from explicit_ids
  validate_packs_from_iff seen i [] = ((λ h. (tt, tt, tt)), (λ h. refl))
  validate_packs_from_iff seen i (p ∷ packs) =
      let path = packs_path libraries ++ index i ∷ [] in
      let later = validate_packs_from libraries (note_id libraries seen i p.id) (suc i) packs in
      let rest : (later ≡ []) ↔ Accepted (note_id libraries seen i p.id) packs =
        validate_packs_from_iff (note_id libraries seen i p.id) (suc i) packs in
      let all =
        both_iff _ _ (validate_pack_iff libraries path p)
          (append-nil_iff (duplicate_id libraries seen path p.id) later) in
      let ids = id_iff seen i path p.id (explicit_ids packs) in
      (
        (λ h.
            let (v, (d, l)) = all.0 h in
            let (valid, distinct, free) = rest.0 l in
            let (n, f) = ids.0 (d, distinct, free) in ((v, valid), n, f)),
        (λ h.
            let (d, distinct, free) = ids.1 (h.1, h.2) in
            all.1 (h.0.0, (d, rest.1 (h.0.1, distinct, free)))),
      )

  abbrev pub AreValidPacks : List PackSpec → Type 0
  AreValidPacks packs = Every (IsValidPack libraries) packs × IsNodup (explicit_ids packs)

  none_taken : (ids : List Text) → Every (IsFree []) ids
  unfolding find
  none_taken [] = tt
  none_taken (id ∷ ids) = (refl, none_taken ids)

  -- validatePacks finds nothing exactly if every pack is well-formed (its id, references, external
  -- manifests and dependencies), and no explicit id stands twice.
  pub validate_packs_iff :
      (packs : List PackSpec) → (validate_packs libraries packs ≡ []) ↔ AreValidPacks packs
  unfolding validate_packs
  validate_packs_iff packs =
      let all = validate_packs_from_iff [] 0 packs in
      (
        (λ h. let (v, d, f) = all.0 h in (v, d)),
        (λ h. all.1 (h.0, h.1, none_taken (explicit_ids packs))),
      )
