-- ===== src/Gateway/Corefile/Site.antt =====
-- CorefileSplice of internal/gateway/corefile.go: where the block goes, and what is kept.
use cube_idp.Base.{
  ℕ, ◌≤◌, ◌≡◌, refl, sym, ◌∙◌, Bool, true, false, none, some, List, [], ◌∷◌, ◌++◌, arith,
  false≢true, trim_space, Text, ◌==◌, ==_iff, ok,
}
use cube_idp.Gateway.Corefile.{
  begin_marker, end_marker, is_line, is_default_server_open, in_order, pair_up, any_server_open,
  only_open,
}
use cube_idp.Gateway.Corefile.Search.{NonePass}

abbrev pub is_begin : Text → Text → Bool
is_begin cube = is_line (begin_marker cube)

abbrev pub is_end : Text → Text → Bool
is_end cube = is_line (end_marker cube)

-- None of the lines is a marker of the cube.
abbrev pub NoMarkers : Text → List Text → Type 0
NoMarkers cube lines = NonePass (is_begin cube) lines × NonePass (is_end cube) lines

-- How a Corefile is divided: what is kept above the block of the cube, the lines that the block
-- replaces, and what is kept below it.
pub data Site (cube : Text) (before old after : List Text) : Type 0 where
  -- There is no block: the new one goes below the opening line of the only default server block.
  inserted :
      (above : List Text) (opening : Text)
      → before ≡ above ++ opening ∷ []
      → old ≡ []
      → is_default_server_open opening ≡ true
      → NonePass is_default_server_open above
      → NonePass is_default_server_open after
      → NoMarkers cube before
      → NoMarkers cube after
      → Site cube before old after
  -- The one block, from marker to marker, below an opening line.
  replaced :
      (first : Text) (mid : List Text) (last : Text)
      → old ≡ first ∷ mid ++ last ∷ []
      → is_begin cube first ≡ true
      → is_end cube last ≡ true
      → NoMarkers cube before
      → NoMarkers cube mid
      → NoMarkers cube after
      → any_server_open before ≡ true
      → Site cube before old after

begin≢end : (cube : Text) → (begin_marker cube == end_marker cube) ≡ false
unfolding ◌==◌
begin≢end cube = refl

-- A line is not both markers.
pub not_both : (cube line : Text) → is_begin cube line ≡ true → is_end cube line ≡ true → ⊥
not_both cube line b e =
    let p : trim_space line ≡ begin_marker cube = (==_iff _ _).0 b in
    let q : trim_space line ≡ end_marker cube = (==_iff _ _).0 e in
    false≢true (sym (begin≢end cube) ∙ (==_iff _ _).1 (sym p ∙ q))

pub pair_up-some :
    (bs es : List ℕ) (b e : ℕ)
    → pair_up bs es ≡ ok (some (b, e))
    → (bs ≡ b ∷ []) × (es ≡ e ∷ []) × (b ≤ e)
unfolding pair_up in_order
pair_up-some [] [] b e h = ground arith
pair_up-some (x ∷ []) [] b e h = ground arith
pair_up-some [] (y ∷ []) b e h = ground arith
pair_up-some (x ∷ []) (y ∷ []) b e h = ground arith
pair_up-some (x ∷ []) (y ∷ y' ∷ ys) b e h = ground arith
pair_up-some [] (y ∷ y' ∷ ys) b e h = ground arith
pair_up-some (x ∷ x' ∷ xs) es b e h = ground arith

pub pair_up-none : (bs es : List ℕ) → pair_up bs es ≡ ok none → (bs ≡ []) × (es ≡ [])
unfolding pair_up in_order
pair_up-none [] [] h = ground arith
pair_up-none (x ∷ []) [] h = ground arith
pair_up-none [] (y ∷ []) h = ground arith
pair_up-none (x ∷ []) (y ∷ []) h = ground arith
pair_up-none (x ∷ []) (y ∷ y' ∷ ys) h = ground arith
pair_up-none [] (y ∷ y' ∷ ys) h = ground arith
pair_up-none (x ∷ x' ∷ xs) es h = ground arith

pub only_open-ok : (l : List ℕ) (k : ℕ) → only_open l ≡ ok k → l ≡ k ∷ []
unfolding only_open
only_open-ok [] k h = cc
only_open-ok (i ∷ []) k h = cc
only_open-ok (i ∷ j ∷ more) k h = cc
