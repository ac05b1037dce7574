-- ===== src/Pack/Values.antt =====
-- internal/pack/values.go: the values that one setup entry supplies to its pack. Reading a
-- reference, and decoding YAML and JSON, are packages that the code calls: they are parameters.
-- A nil map and an empty one are both the mapping without fields, since every reader of the result
-- treats them alike.
pub mod Merge
pub mod Numbers
mod Tests
use Prim.Native.Nat.{◌^◌, ◌%◌, ◌/◌}
use cube_idp.Base.{
  ℕ, zero, suc, ◌+◌, ◌*◌, ◌&&◌, Option, none, some, List, [], ◌∷◌, length, Result, ◌>>=◌, wrapped,
  leb, eqb, if◌then◌else◌, Text, ◌==◌, ok, err,
}
use cube_idp.Base.Document.{
  Integer, pos, negsuc, Float, Value, null, bool, int, float, str, arr, obj, Items, nil, cons,
  Fields, end, field, get, set, remove,
}
use cube_idp.Api.{PackSpec}
use cube_idp.Pack.Errors.{PackError, values_document, inline_values, values_ref}
use cube_idp.Pack.Raw.{Stream, decode_documents}

pub fields_of : Option Value → Fields
fields_of (some (obj f)) = f
fields_of _ = end

-- mergePatch. Both maps hold each key once.
unfoldable pub merge_patch : Fields → Fields → Fields
unfolding fields_of
merge_patch merged end = merged
merge_patch merged (field name null patch) = merge_patch (remove merged name) patch
merge_patch merged (field name (obj v) patch) =
    merge_patch (set merged name (obj (merge_patch (fields_of (get merged name)) v))) patch
merge_patch merged (field name v patch) = merge_patch (set merged name v) patch

-- maxExactInt
pub max_exact_int : ℕ
max_exact_int = 2 ^ 53

pub magnitude : Integer → ℕ
magnitude (pos n) = n
magnitude (negsuc n) = n + 1

-- The integer of the same sign with another magnitude.
with_magnitude : Integer → ℕ → Integer
with_magnitude (pos n) k = pos k
with_magnitude (negsuc n) zero = pos 0
with_magnitude (negsuc n) (suc k) = negsuc k

-- The case float64 of normalizeNumbers: v == math.Trunc(v) && math.Abs(v) <= maxExactInt.
pub normalize_float : Float → Value
unfolding max_exact_int magnitude with_magnitude
normalize_float f =
    let unit = 2 ^ f.scale in
    let n = magnitude f.numerator in
    if eqb (n % unit) 0 && leb n (max_exact_int * unit)
    then int (with_magnitude f.numerator (n / unit))
    else float f

unfoldable mutual
  unfolding normalize_float

  pub normalize_numbers : Value → Value
  normalize_numbers null = null
  normalize_numbers (bool b) = bool b
  normalize_numbers (int i) = int i
  normalize_numbers (float f) = normalize_float f
  normalize_numbers (str s) = str s
  normalize_numbers (arr l) = arr (normalize_items l)
  normalize_numbers (obj f) = obj (normalize_fields f)

  pub normalize_items : Items → Items
  normalize_items nil = nil
  normalize_items (cons v l) = cons (normalize_numbers v) (normalize_items l)

  pub normalize_fields : Fields → Fields
  normalize_fields end = end
  normalize_fields (field k v f) = field k (normalize_numbers v) (normalize_fields f)

-- What the code calls: the resolver of references, the decoder of a YAML stream, and the decoder of one JSON mapping.
pub record Decoders : Type 0 where
  pub resolve : Text → Result PackError Text
  pub decoder : Text → Stream
  pub unmarshal : Text → Option Fields

module _ (d : Decoders) where
  -- What baseValues makes of the decoded stream.
  pub single_document : Text → Option (List Fields) → Result PackError Fields
  single_document ref none = err (values_document ref none)
  single_document ref (some []) = err (values_document ref (some 0))
  single_document ref (some (doc ∷ [])) = ok doc
  single_document ref (some (doc ∷ next ∷ more)) =
      err (values_document ref (some (length (doc ∷ next ∷ more))))

  pub base_values : Text → Result PackError Fields
  unfolding single_document
  base_values ref =
      if ref == []
      then ok end
      else (wrapped values_ref (d.resolve ref) >>= λ data'.
          single_document ref (decode_documents (d.decoder data')))

  -- `none` is a nil patch.
  pub inline_patch : Option Text → Result PackError (Option Fields)
  inline_patch none = ok none
  inline_patch (some []) = ok none
  inline_patch (some (c ∷ raw)) = elim (d.unmarshal (c ∷ raw)) [
    | none ↦ err inline_values
    | some doc ↦ ok (some doc)
  ]

  abbrev pub patched : Fields → Option Fields → Fields
  patched base none = base
  patched base (some patch) = merge_patch base patch

  unfoldable pub instance_values : PackSpec → Result PackError Fields
  unfolding base_values inline_patch
  instance_values spec = base_values spec.values_ref >>= λ base.
      inline_patch spec.values >>= λ patch. ok (normalize_fields (patched base patch))
