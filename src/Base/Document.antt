-- ===== src/Base/Document.antt =====
-- Decoded documents: Go's `any` as JSON and YAML leave it, and `unstructured.Unstructured`, whose
-- content is one mapping. A mapping is a list of fields; its keys are met once each, and what the
-- program reads of it is `get`.
use Prim.Native.Nat.{ℕ}
use mathlib.Core.Path.{◌≡◌, refl}
use mathlib.Core.Bool.{Bool}
use mathlib.Core.Option.{Option, none, some}
use mathlib.Core.List.{List, [], ◌∷◌}
use native.Mathlib.Omega.{arith}
use cube_idp.Base.Tests.{Text, ◌==◌, ==_iff, if◌then◌else◌}

-- int64, whose range the program never leaves. `negsuc n` is -(n + 1).
pub data Integer : Type 0 where
  pos : ℕ → Integer
  negsuc : ℕ → Integer

-- A finite float64 by the real number that it is: the numerator over 2 to the `scale`.
pub record Float : Type 0 where
  pub numerator : Integer
  pub scale : ℕ

mutual
  pub data Value : Type 0 where
    null : Value
    bool : Bool → Value
    int : Integer → Value
    float : Float → Value
    str : Text → Value
    arr : Items → Value
    obj : Fields → Value

  pub data Items : Type 0 where
    nil : Items
    cons : Value → Items → Items

  pub data Fields : Type 0 where
    end : Fields
    field : Text → Value → Fields → Fields

-- v, ok := m[k]
unfoldable pub get : Fields → Text → Option Value
get end k = none
get (field j v m) k = if j == k then some v else get m k

-- m[k] = v
unfoldable pub set : Fields → Text → Value → Fields
set end k v = field k v end
set (field j w m) k v = let rest = set m k v in if j == k then field k v m else field j w rest

-- delete(m, k)
unfoldable pub remove : Fields → Text → Fields
remove end k = end
remove (field j w m) k = let rest = remove m k in if j == k then rest else field j w rest

pub get-set :
    (m : Fields) (k j : Text) (v : Value) → get (set m k v) j ≡ (if k == j then some v else get m j)
unfolding get set
get-set end k j v = refl
get-set (field i w m) k j v = ground (arith, ==_iff k j, ==_iff i k, ==_iff i j, get-set m k j v)

pub get-remove : (m : Fields) (k j : Text) → get (remove m k) j ≡ (if k == j then none else get m j)
unfolding get remove
get-remove end k j = ground arith
get-remove (field i w m) k j = ground (arith, ==_iff k j, ==_iff i k, ==_iff i j, get-remove m k j)

-- The elements of a list of values.
abbrev pub items : List Value → Items
items [] = nil
items (v ∷ l) = cons v (items l)

-- unstructured.NestedFieldNoCopy: `none` where a key is missing or its parent is no mapping.
unfoldable pub nested : Fields → Text → List Text → Option Value
unfolding get
nested m k [] = get m k
nested m k (next ∷ path) = elim (get m k) [ some (obj m') ↦ nested m' next path | _ ↦ none ]

-- unstructured.NestedString, with the zero value for a missing or mistyped field.
unfoldable pub nested_string : Fields → Text → List Text → Text
unfolding nested
nested_string m k path = elim (nested m k path) [ some (str s) ↦ s | _ ↦ [] ]

-- unstructured.NestedInt64; `none` is found=false.
unfoldable pub nested_int : Fields → Text → List Text → Option Integer
unfolding nested
nested_int m k path = elim (nested m k path) [ some (int i) ↦ some i | _ ↦ none ]

-- unstructured.NestedSlice; the empty list where it is not found.
unfoldable pub nested_slice : Fields → Text → List Text → Items
unfolding nested
nested_slice m k path = elim (nested m k path) [ some (arr l) ↦ l | _ ↦ nil ]

-- unstructured.SetNestedField at a path of two keys, whose error the callers drop: a missing
-- parent is created, and a parent that is no mapping is left.
unfoldable pub set_nested : Fields → (parent key : Text) → Value → Fields
unfolding get set
set_nested m parent key v = elim (get m parent) [
  | none ↦ set m parent (obj (field key v end))
  | some (obj f) ↦ set m parent (obj (set f key v))
  | some other ↦ m
]
