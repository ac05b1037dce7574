-- ===== src/Gateway/Corefile/Search.antt =====
-- The searches of internal/gateway/corefile.go: where the lines that pass a test stand.
use cube_idp.Base.{
  ℕ, suc, ◌+◌, ◌<◌, ◌≡◌, refl, ap, inl, inr, Bool, true, false, ◌||◌, List, [], ◌∷◌, ◌++◌, arith,
  length, Every, Bool-cases, Text,
}
use cube_idp.Gateway.Corefile.{positions, any_server_open}

-- No line passes the test.
abbrev pub NonePass : (Text → Bool) → List Text → Type 0
NonePass test lines = Every (λ line. test line ≡ false) lines

pub positions-nil :
    (test : Text → Bool) (i : ℕ) (lines : List Text)
    → positions test i lines ≡ []
    → NonePass test lines
unfolding positions
positions-nil test i [] h = tt
positions-nil test i (line ∷ lines) h =
    (ground arith, positions-nil test (suc i) lines (ground arith))

pub positions-NonePass :
    (test : Text → Bool) (i : ℕ) (lines : List Text)
    → NonePass test lines
    → positions test i lines ≡ []
unfolding positions
positions-NonePass test i [] h = refl
positions-NonePass test i (line ∷ lines) h =
    ground (arith, h.0, positions-NonePass test (suc i) lines h.1)

-- A line that is the only one to pass the test, at position `k` of the list from `i`.
pub record IsOnly (test : Text → Bool) (i : ℕ) (lines : List Text) (k : ℕ) : Type 0 where
  pub above : List Text
  pub line : Text
  pub below : List Text
  pub split : lines ≡ above ++ line ∷ below
  pub place : k ≡ i + length above
  pub passes : test line ≡ true
  pub none_above : NonePass test above
  pub none_below : NonePass test below

pub positions-IsOnly :
    (test : Text → Bool) (i : ℕ) (lines : List Text) (k : ℕ)
    → positions test i lines ≡ k ∷ []
    → IsOnly test i lines k
unfolding positions
positions-IsOnly test i [] k h = cc
positions-IsOnly test i (line ∷ lines) k h = elim (Bool-cases (test line)) [
  | inl e ↦ record {
    above = [];
    line = line;
    below = lines;
    split = refl;
    place = ground (arith, e, h);
    passes = e;
    none_above = tt;
    none_below = positions-nil test (suc i) lines (ground (arith, e, h));
  }
  | inr e ↦
      let later = positions-IsOnly test (suc i) lines k (ground (arith, e, h)) in
      record {
        above = line ∷ later.above;
        line = later.line;
        below = later.below;
        split = ap (λ l. line ∷ l) later.split;
        place = omega (arith, later.place);
        passes = later.passes;
        none_above = (e, later.none_above);
        none_below = later.none_below;
      }
]

-- Where one line passes and none above or below it does.
pub positions_one :
    (test : Text → Bool) (i : ℕ) (above : List Text) (line : Text) (below : List Text)
    → NonePass test above
    → test line ≡ true
    → NonePass test below
    → positions test i (above ++ line ∷ below) ≡ (i + length above) ∷ []
unfolding positions
positions_one test i [] line below a h b =
    ground (arith, h, positions-NonePass test (suc i) below b)
positions_one test i (x ∷ above) line below a h b =
    ground (arith, a.0, positions_one test (suc i) above line below a.1 h b)

-- Two splits of a list at different places.
pub split_between :
    (p q r s : List Text) (x y : Text)
    → p ++ x ∷ q ≡ r ++ y ∷ s
    → length p < length r
    → (mid : List Text) × (r ≡ p ++ x ∷ mid) × (q ≡ mid ++ y ∷ s)
split_between [] q [] s x y e h = absurd (omega arith)
split_between [] q (z ∷ r) s x y e h = (r, cc, cc)
split_between (z ∷ p) q [] s x y e h = absurd (omega arith)
split_between (z ∷ p) q (w ∷ r) s x y e h =
    let (mid, a, b) = split_between p q r s x y (cc) (omega arith) in (mid, cc (a, e), b)

pub split_same :
    (p q r s : List Text) (x y : Text) → p ++ x ∷ q ≡ r ++ y ∷ s → length p ≡ length r → x ≡ y
split_same [] q [] s x y e h = cc
split_same [] q (z ∷ r) s x y e h = absurd (omega arith)
split_same (z ∷ p) q [] s x y e h = absurd (omega arith)
split_same (z ∷ p) q (w ∷ r) s x y e h = split_same p q r s x y (cc) (omega arith)

pub any_server_open-append :
    (xs ys : List Text) → any_server_open (xs ++ ys) ≡ (any_server_open xs || any_server_open ys)
unfolding any_server_open
any_server_open-append [] ys = refl
any_server_open-append (x ∷ xs) ys = ground (arith, any_server_open-append xs ys)
