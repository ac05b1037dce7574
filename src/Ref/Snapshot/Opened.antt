-- ===== src/Ref/Snapshot/Opened.antt =====
-- An open directory of a snapshot: openTreeDir of internal/ref/tree.go.
use cube_idp.Base.{
  ℕ, zero, suc, ◌+◌, ◌≤◌, ◌<◌, ◌≡◌, refl, sym, ap, ◌∙◌, Option, none, some, List, [], ◌∷◌, ◌++◌,
  arith, length, take, drop,
}
use cube_idp.Ref.Snapshot.{TreeInfo}

pub record OpenDir : Type 0 where
  pub entries : List TreeInfo
  pub offset : ℕ

abbrev pub remaining : OpenDir → List TreeInfo
remaining d = drop d.offset d.entries

-- The offset is past some more entries.
abbrev past : OpenDir → ℕ → OpenDir
past d n = record { entries = d.entries; offset = d.offset + n }

-- ReadDir of a positive number, by the entries that are left.
abbrev pub read_some : (n : ℕ) → OpenDir → List TreeInfo → Option (List TreeInfo) × OpenDir
read_some n d [] = (none, d)
read_some n d (info ∷ rest) = let read = take n (info ∷ rest) in (some read, past d (length read))

-- ReadDir, with zero for every n that is not positive. What it returns, `none` for io.EOF, and what
-- it leaves.
pub read_dir_n : (n : ℕ) → OpenDir → Option (List TreeInfo) × OpenDir
read_dir_n zero d = (some (remaining d), record { entries = d.entries; offset = length d.entries })
read_dir_n (suc n) d = read_some (suc n) d (remaining d)

abbrev append_read : Option (List TreeInfo) → Option (List TreeInfo) → Option (List TreeInfo)
append_read none later = some []
append_read (some read) none = none
append_read (some read) (some later) = some (read ++ later)

-- A reader that calls ReadDir until it answers io.EOF, for a number of calls at most.
pub read_until_eof : (calls : ℕ) → (n : ℕ) → OpenDir → Option (List TreeInfo)
read_until_eof zero n d = none
read_until_eof (suc calls) n d =
    let (read, next) = read_dir_n n d in append_read read (read_until_eof calls n next)

module _ {A : Type 0} where
  drop-add : (a b : ℕ) (xs : List A) → drop (a + b) xs ≡ drop b (drop a xs)
  drop-add zero b xs = let e : 0 + b ≡ b = omega arith in rw e refl
  drop-add (suc a) b [] = let e : suc a + b ≡ suc (a + b) = omega arith in rw e (sym (drop-nil b))
    where
      drop-nil : (b : ℕ) → drop {A = A} b [] ≡ []
      drop-nil zero = refl
      drop-nil (suc b) = refl
  drop-add (suc a) b (x ∷ xs) =
      let e : suc a + b ≡ suc (a + b) = omega arith in rw e (drop-add a b xs)

  drop-length-take : (n : ℕ) (xs : List A) → drop (length (take n xs)) xs ≡ drop n xs
  drop-length-take zero xs = refl
  drop-length-take (suc n) [] = refl
  drop-length-take (suc n) (x ∷ xs) = drop-length-take n xs

  take-drop : (n : ℕ) (xs : List A) → take n xs ++ drop n xs ≡ xs
  take-drop zero xs = refl
  take-drop (suc n) [] = refl
  take-drop (suc n) (x ∷ xs) = ap (λ l. x ∷ l) (take-drop n xs)

  length-drop : (n : ℕ) (xs : List A) → length (drop n xs) ≤ length xs
  length-drop zero xs = omega arith
  length-drop (suc n) [] = omega arith
  length-drop (suc n) (x ∷ xs) = omega (arith, length-drop n xs)

-- Reading a directory in steps of a positive size ends: at most one call more than there are
-- entries left is needed, and the calls together return each of these once, in their order.
pub read_until_eof-remaining :
    (calls n : ℕ) (d : OpenDir)
    → length (remaining d) < calls
    → read_until_eof calls (suc n) d ≡ some (remaining d)
unfolding read_until_eof read_dir_n
read_until_eof-remaining zero n d h = absurd (omega (arith, h))
read_until_eof-remaining (suc calls) n d h =
    by_rest (remaining d) refl (λ d' k. read_until_eof-remaining calls n d' k)
  where
    by_rest :
        (rest : List TreeInfo)
        → remaining d ≡ rest
        → ((d' : OpenDir)
            → length (remaining d') < calls
            → read_until_eof calls (suc n) d' ≡ some (remaining d'))
        → append_read
            (read_some (suc n) d rest).0
            (read_until_eof calls (suc n) (read_some (suc n) d rest).1)
          ≡ some rest
    by_rest [] e later = refl
    by_rest (info ∷ rest) e later =
        let read = take (suc n) (info ∷ rest) in
        let left : remaining (past d (length read)) ≡ drop n rest =
          drop-add d.offset (length read) d.entries
          ∙ ap (drop (length read)) e
          ∙ drop-length-take (suc n) (info ∷ rest) in
        let shorter : length (remaining (past d (length read))) < calls =
          omega (arith, h, ap length left, ap length e, length-drop n rest) in
        rw (later (past d (length read)) shorter, left) (ap some (take-drop (suc n) (info ∷ rest)))
