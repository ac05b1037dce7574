-- ===== src/Pack/Values/Numbers.antt =====
-- normalizeNumbers of internal/pack/values.go.
use Prim.Native.Nat.{◌^◌, ◌%◌, ◌/◌}
use cube_idp.Base.{
  ℕ, zero, suc, ◌*◌, ◌≤◌, ◌<◌, ◌≡◌, refl, sym, ◌∙◌, ◌≢◌, ◌⊎◌, inl, inr, Bool, true, false, ◌&&◌,
  arith, false≢true, leb, eqb, if◌then◌else◌, leb→le, not_leb→lt,
}
use cube_idp.Base.Document.{
  Integer, pos, negsuc, Float, Value, null, bool, int, float, str, arr, obj, Items, nil, cons,
  Fields, end, field,
}
use cube_idp.Pack.Values.{
  max_exact_int, magnitude, with_magnitude, normalize_float, normalize_numbers, normalize_items,
  normalize_fields,
}

-- The two numbers have one sign, if neither is zero.
abbrev pub SameSign : Integer → Integer → Type 0
SameSign (pos n) (pos k) = Unit
SameSign (pos n) (negsuc k) = ⊥
SameSign (negsuc n) (pos k) = k ≡ 0
SameSign (negsuc n) (negsuc k) = Unit

-- The integer is the value of the float, and a float64 holds every integer of its size exactly.
pub record IsExact (f : Float) (i : Integer) : Type 0 where
  pub sign : SameSign f.numerator i
  pub value : magnitude i * 2 ^ f.scale ≡ magnitude f.numerator
  pub small : magnitude f.numerator ≤ max_exact_int * 2 ^ f.scale

-- An integer where the float is a whole number of exact size, and the same float elsewhere.
abbrev pub Normalized : Float → Value → Type 0
Normalized f (int i) = IsExact f i
Normalized f (float g) =
    (g ≡ f)
    × ((magnitude f.numerator % 2 ^ f.scale ≢ 0)
        ⊎ (max_exact_int * 2 ^ f.scale < magnitude f.numerator))
Normalized f _ = ⊥

magnitude-with_magnitude : (i : Integer) (k : ℕ) → magnitude (with_magnitude i k) ≡ k
unfolding magnitude with_magnitude
magnitude-with_magnitude (pos n) k = refl
magnitude-with_magnitude (negsuc n) zero = refl
magnitude-with_magnitude (negsuc n) (suc k) = omega arith

SameSign-with_magnitude : (i : Integer) (k : ℕ) → SameSign i (with_magnitude i k)
unfolding with_magnitude
SameSign-with_magnitude (pos n) k = tt
SameSign-with_magnitude (negsuc n) zero = refl
SameSign-with_magnitude (negsuc n) (suc k) = tt

divided : (n unit : ℕ) → n % unit ≡ 0 → n / unit * unit ≡ n
divided n unit h = omega arith

-- The code's test, its two parts given.
normalize_float-cases :
    (f : Float) (whole small : Bool)
    → eqb (magnitude f.numerator % 2 ^ f.scale) 0 ≡ whole
    → leb (magnitude f.numerator) (max_exact_int * 2 ^ f.scale) ≡ small
    → normalize_float f ≡ (
        if whole && small
        then int (with_magnitude f.numerator (magnitude f.numerator / 2 ^ f.scale))
        else float f)
unfolding normalize_float
normalize_float-cases f whole small w s = rw (w, s)

pub normalize_float-Normalized : (f : Float) → Normalized f (normalize_float f)
normalize_float-Normalized f = by_test _ _ refl refl
  where
    by_test :
        (whole small : Bool)
        → eqb (magnitude f.numerator % 2 ^ f.scale) 0 ≡ whole
        → leb (magnitude f.numerator) (max_exact_int * 2 ^ f.scale) ≡ small
        → Normalized f (normalize_float f)
    by_test true true w s =
        let n = magnitude f.numerator in
        let q = n / 2 ^ f.scale in
        rw (normalize_float-cases f true true w s) (record {
          sign = SameSign-with_magnitude f.numerator q;
          value =
              rw (magnitude-with_magnitude f.numerator q)
                (divided n (2 ^ f.scale) (ground (arith, w)));
          small = leb→le n (max_exact_int * 2 ^ f.scale) s;
        })
    by_test true false w s =
        rw (normalize_float-cases f true false w s) (refl, inr (not_leb→lt _ _ s))
    by_test false small w s =
        rw (normalize_float-cases f false small w s) (refl, inl (λ z. false≢true (sym w ∙ rw z)))

-- Every number of a document is normalized, and everything else is kept.
mutual
  pub Normal : Value → Value → Type 0
  Normal null w = w ≡ null
  Normal (bool b) w = w ≡ bool b
  Normal (int i) w = w ≡ int i
  Normal (float f) w = Normalized f w
  Normal (str s) w = w ≡ str s
  Normal (arr l) w = (l' : Items) × (w ≡ arr l') × NormalItems l l'
  Normal (obj f) w = (f' : Fields) × (w ≡ obj f') × NormalFields f f'

  pub NormalItems : Items → Items → Type 0
  NormalItems nil l = l ≡ nil
  NormalItems (cons v l) l' =
      (w : Value) × (rest : Items) × (l' ≡ cons w rest) × Normal v w × NormalItems l rest

  pub NormalFields : Fields → Fields → Type 0
  NormalFields end f = f ≡ end
  NormalFields (field k v f) f' =
      (w : Value) × (rest : Fields) × (f' ≡ field k w rest) × Normal v w × NormalFields f rest

mutual
  unfolding Normal normalize_numbers

  Normal-normalize_numbers : (v : Value) → Normal v (normalize_numbers v)
  Normal-normalize_numbers null = refl
  Normal-normalize_numbers (bool b) = refl
  Normal-normalize_numbers (int i) = refl
  Normal-normalize_numbers (float f) = normalize_float-Normalized f
  Normal-normalize_numbers (str s) = refl
  Normal-normalize_numbers (arr l) = (normalize_items l, refl, Normal-normalize_items l)
  Normal-normalize_numbers (obj f) = (normalize_fields f, refl, Normal-normalize_fields f)

  Normal-normalize_items : (l : Items) → NormalItems l (normalize_items l)
  Normal-normalize_items nil = refl
  Normal-normalize_items (cons v l) = (
    normalize_numbers v,
    normalize_items l,
    refl,
    Normal-normalize_numbers v,
    Normal-normalize_items l,
  )

  Normal-normalize_fields : (f : Fields) → NormalFields f (normalize_fields f)
  Normal-normalize_fields end = refl
  Normal-normalize_fields (field k v f) = (
    normalize_numbers v,
    normalize_fields f,
    refl,
    Normal-normalize_numbers v,
    Normal-normalize_fields f,
  )
