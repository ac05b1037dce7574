-- ===== src/Pack/Values/Merge.antt =====
-- mergePatch of internal/pack/values.go against RFC 7386.
use cube_idp.Base.{
  ◌≡◌, refl, ap, ◌∙◌, inl, inr, Option, none, some, subst, if◌then◌else◌, Bool-cases, Text, ◌==◌,
  ==_iff,
}
use cube_idp.Base.Document.{
  Value, null, bool, int, float, str, arr, obj, Fields, end, field, get, set, remove, get-set,
  get-remove,
}
use cube_idp.Pack.Values.{fields_of, merge_patch}

-- MergePatch of RFC 7386, section 2: the fields of an object patch are merged into the target, an
-- object with no field where the target is none; any other patch is the result.
abbrev pub fields_or_empty : Value → Fields
fields_or_empty (obj f) = f
fields_or_empty _ = end

-- The target of a name, which may be undefined.
abbrev pub target_of : Option Value → Value
target_of none = null
target_of (some v) = v

unfoldable mutual
  pub rfc_merge : Value → Value → Value
  rfc_merge null target = null
  rfc_merge (bool b) target = bool b
  rfc_merge (int i) target = int i
  rfc_merge (float f) target = float f
  rfc_merge (str s) target = str s
  rfc_merge (arr l) target = arr l
  rfc_merge (obj patch) target = obj (rfc_fields patch (fields_or_empty target))

  pub rfc_fields : Fields → Fields → Fields
  rfc_fields end target = target
  rfc_fields (field name v patch) target = rfc_fields patch (elim v [
    | null ↦ remove target name
    | _ ↦ set target name (rfc_merge v (target_of (get target name)))
  ])

fields_of-target : (o : Option Value) → fields_or_empty (target_of o) ≡ fields_of o
unfolding fields_of
fields_of-target none = refl
fields_of-target (some null) = refl
fields_of-target (some (bool b)) = refl
fields_of-target (some (int i)) = refl
fields_of-target (some (float f)) = refl
fields_of-target (some (str s)) = refl
fields_of-target (some (arr l)) = refl
fields_of-target (some (obj f)) = refl

merge_patch-fields : (patch merged : Fields) → merge_patch merged patch ≡ rfc_fields patch merged
unfolding merge_patch rfc_fields
merge_patch-fields end merged = refl
merge_patch-fields (field name null patch) merged = merge_patch-fields patch (remove merged name)
merge_patch-fields (field name (bool b) patch) merged =
    merge_patch-fields patch (set merged name (bool b))
merge_patch-fields (field name (int i) patch) merged =
    merge_patch-fields patch (set merged name (int i))
merge_patch-fields (field name (float f) patch) merged =
    merge_patch-fields patch (set merged name (float f))
merge_patch-fields (field name (str s) patch) merged =
    merge_patch-fields patch (set merged name (str s))
merge_patch-fields (field name (arr l) patch) merged =
    merge_patch-fields patch (set merged name (arr l))
merge_patch-fields (field name (obj v) patch) merged =
    let sub = get merged name in
    let inner : merge_patch (fields_of sub) v ≡ rfc_fields v (fields_or_empty (target_of sub)) =
      rw (fields_of-target sub) (merge_patch-fields v (fields_of sub)) in
    ap (λ f. merge_patch (set merged name (obj f)) patch) inner
    ∙ merge_patch-fields patch
        (set merged name (obj (rfc_fields v (fields_or_empty (target_of sub)))))

-- mergePatch is the merge patch of RFC 7386 on two objects.
pub merge_patch-rfc :
    (base patch : Fields) → obj (merge_patch base patch) ≡ rfc_merge (obj patch) (obj base)
unfolding rfc_merge
merge_patch-rfc base patch = ap obj (merge_patch-fields patch base)

-- What a patch makes of one field.
abbrev pub patched_field : Option Value → Option Value → Option Value
patched_field none old = old
patched_field (some null) old = none
patched_field (some (obj v)) old = some (obj (merge_patch (fields_of old) v))
patched_field (some (bool b)) old = some (bool b)
patched_field (some (int i)) old = some (int i)
patched_field (some (float f)) old = some (float f)
patched_field (some (str s)) old = some (str s)
patched_field (some (arr l)) old = some (arr l)

-- A map holds each key once.
abbrev pub IsMap : Fields → Type 0
IsMap end = Unit
IsMap (field k v m) = (get m k ≡ none) × IsMap m

-- One round of the loop, at a name that the rest of the patch does not have.
patched_field-round :
    (patch merged merged' : Fields) (name k : Text) (v : Value)
    → get patch name ≡ none
    → get merged' k ≡ (if name == k then patched_field (some v) (get merged name) else get merged k)
    → get (merge_patch merged' patch) k ≡ patched_field (get patch k) (get merged' k)
    → get (merge_patch merged' patch) k
      ≡ patched_field (if name == k then some v else get patch k) (get merged k)
patched_field-round patch merged merged' name k v absent step rest = elim (Bool-cases (name == k)) [
  | inl e ↦
      let same : name ≡ k = (==_iff name k).0 e in
      let step' : get merged' k ≡ patched_field (some v) (get merged k) =
        subst (λ n. get merged' k ≡ patched_field (some v) (get merged n)) same (step ∙ rw e) in
      let absent' : get patch k ≡ none = subst (λ n. get patch n ≡ none) same absent in
      rest ∙ ap (λ o. patched_field o (get merged' k)) absent' ∙ step' ∙ rw e
  | inr o ↦
      let step' : get merged' k ≡ get merged k = step ∙ rw o in
      rest ∙ ap (patched_field (get patch k)) step' ∙ rw o
]

-- Applying a patch changes each field by what the patch has at its name, and no other: without an
-- entry it is kept, a null deletes it, a mapping is merged into it, any other value replaces it.
-- The patch holds each key once, so the order of its keys does not matter.
pub get-merge_patch :
    (base patch : Fields) (k : Text)
    → IsMap patch
    → get (merge_patch base patch) k ≡ patched_field (get patch k) (get base k)
unfolding merge_patch get
get-merge_patch base end k h = refl
get-merge_patch base (field name null patch) k h =
    patched_field-round patch base (remove base name) name k null h.0 (get-remove base name k)
      (get-merge_patch (remove base name) patch k h.1)
get-merge_patch base (field name (obj v) patch) k h =
    let merged' = set base name (obj (merge_patch (fields_of (get base name)) v)) in
    patched_field-round patch base merged' name k (obj v) h.0 (get-set base name k _)
      (get-merge_patch merged' patch k h.1)
get-merge_patch base (field name (bool b) patch) k h =
    patched_field-round patch base (set base name (bool b)) name k (bool b) h.0
      (get-set base name k (bool b)) (get-merge_patch (set base name (bool b)) patch k h.1)
get-merge_patch base (field name (int i) patch) k h =
    patched_field-round patch base (set base name (int i)) name k (int i) h.0
      (get-set base name k (int i)) (get-merge_patch (set base name (int i)) patch k h.1)
get-merge_patch base (field name (float f) patch) k h =
    patched_field-round patch base (set base name (float f)) name k (float f) h.0
      (get-set base name k (float f)) (get-merge_patch (set base name (float f)) patch k h.1)
get-merge_patch base (field name (str s) patch) k h =
    patched_field-round patch base (set base name (str s)) name k (str s) h.0
      (get-set base name k (str s)) (get-merge_patch (set base name (str s)) patch k h.1)
get-merge_patch base (field name (arr l) patch) k h =
    patched_field-round patch base (set base name (arr l)) name k (arr l) h.0
      (get-set base name k (arr l)) (get-merge_patch (set base name (arr l)) patch k h.1)
