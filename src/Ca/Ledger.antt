-- ===== src/Ca/Ledger.antt =====
-- internal/ca/ledger.go: the record of the CAs that are installed in trust stores. The proofs are in
-- the modules below.
pub mod Parsed
pub mod Updated
pub mod Rendered
use cube_idp.Base.{
  ℕ, suc, Option, none, some, List, [], ◌∷◌, contains, Result, text_le, trim_space, if◌then◌else◌,
  Text, ◌==◌, ok, err,
}

pub record Entry : Type 0 where
  pub cube : Text
  pub fingerprint : Text
  pub store : Text
  pub date : Text

pub record TrustLedger : Type 0 where
  pub entries : List Entry

-- newLedgerError, by its detail.
pub data LedgerError : Type 0 where
  does_not_parse : LedgerError
  no_cube : ℕ → LedgerError
  no_fingerprint : ℕ → (cube : Text) → LedgerError
  no_store : ℕ → (cube : Text) → LedgerError
  no_date : ℕ → (cube : Text) → LedgerError
  many_entries : (cube : Text) → LedgerError
  not_rendered : LedgerError

-- The switch of ParseLedger: what is wrong with the entry at a position.
check_entry : (seen : List Text) → ℕ → Entry → Option LedgerError
check_entry seen i e =
    if e.cube == []
    then some (no_cube i)
    else if e.fingerprint == []
    then some (no_fingerprint i e.cube)
    else if e.store == []
    then some (no_store i e.cube)
    else if e.date == []
    then some (no_date i e.cube)
    else if contains seen e.cube
    then some (many_entries e.cube)
    else none

-- Its loop. The set `seen` is the list of its keys.
check_entries : (seen : List Text) → ℕ → List Entry → Option LedgerError
unfolding check_entry
check_entries seen i [] = none
check_entries seen i (e ∷ entries) = elim (check_entry seen i e) [
  | some problem ↦ some problem
  | none ↦ check_entries (e.cube ∷ seen) (suc i) entries
]

-- The ledger that was decoded, checked.
checked : TrustLedger → Option LedgerError → Result LedgerError TrustLedger
checked ledger none = ok ledger
checked ledger (some e) = err e

-- ParseLedger behind the decoder.
decoded : Option TrustLedger → Result LedgerError TrustLedger
unfolding check_entries checked
decoded none = err does_not_parse
decoded (some ledger) = checked ledger (check_entries [] 0 ledger.entries)

-- `decode` is yaml.UnmarshalStrict into a ledger.
pub parse_ledger : (decode : Text → Option TrustLedger) → Text → Result LedgerError TrustLedger
unfolding decoded
parse_ledger decode data' =
    if trim_space data' == [] then ok (record { entries = [] }) else decoded (decode data')

find_in : List Entry → (cube : Text) → Option Entry
find_in [] cube = none
find_in (e ∷ entries) cube = if e.cube == cube then some e else find_in entries cube

-- Find
pub find_entry : TrustLedger → (cube : Text) → Option Entry
unfolding find_in
find_entry l cube = find_in l.entries cube

-- The entries with the first one of the same cube replaced, or one more at the end.
upsert_in : List Entry → Entry → List Entry
upsert_in [] e = e ∷ []
upsert_in (x ∷ entries) e =
    let rest = upsert_in entries e in if x.cube == e.cube then e ∷ entries else x ∷ rest

-- Upsert
pub upsert : TrustLedger → Entry → TrustLedger
unfolding upsert_in
upsert l e = record { entries = upsert_in l.entries e }

remove_in : List Entry → (cube : Text) → List Entry
remove_in [] cube = []
remove_in (e ∷ entries) cube =
    let rest = remove_in entries cube in if e.cube == cube then rest else e ∷ rest

-- Remove
pub remove : TrustLedger → (cube : Text) → TrustLedger
unfolding remove_in
remove l cube = record { entries = remove_in l.entries cube }

-- slices.SortFunc by the cube. Entries of one cube, which a well-formed ledger does not have, are left in
-- an order that Go leaves open.
insert_entry : Entry → List Entry → List Entry
insert_entry e [] = e ∷ []
insert_entry e (x ∷ entries) =
    let rest = insert_entry e entries in if text_le e.cube x.cube then e ∷ x ∷ entries else x ∷ rest

sort_entries : List Entry → List Entry
unfolding insert_entry
sort_entries [] = []
sort_entries (e ∷ entries) = insert_entry e (sort_entries entries)

rendered : Option Text → Result LedgerError Text
rendered none = err not_rendered
rendered (some data') = ok data'

-- Marshal; `encode` is yaml.Marshal, and `none` its failure.
pub marshal : (encode : TrustLedger → Option Text) → TrustLedger → Result LedgerError Text
unfolding sort_entries rendered
marshal encode l = rendered (encode (record { entries = sort_entries l.entries }))
