-- ===== src/Ca/Ledger/Updated.antt =====
-- Upsert and Remove of internal/ca/ledger.go.
use cube_idp.Base.{
  ◌≡◌, refl, inl, inr, false, ◌||◌, none, some, List, [], ◌∷◌, arith, subst, Every, contains,
  IsNodup, if◌then◌else◌, Bool-cases, Text, ◌==◌, ==_iff,
}
use cube_idp.Ca.Ledger.{
  Entry, TrustLedger, find_in, find_entry, upsert_in, upsert, remove_in, remove,
}
use cube_idp.Ca.Ledger.Parsed.{IsComplete, cubes, IsLedger}

find_in-upsert_in :
    (entries : List Entry) (e : Entry) (cube : Text)
    → find_in (upsert_in entries e) cube ≡ (if e.cube == cube then some e else find_in entries cube)
unfolding find_in upsert_in
find_in-upsert_in [] e cube = refl
find_in-upsert_in (x ∷ entries) e cube = ground (
  arith,
  find_in-upsert_in entries e cube,
  ==_iff x.cube e.cube,
  ==_iff x.cube cube,
  ==_iff e.cube cube,
)

contains-upsert_in :
    (entries : List Entry) (e : Entry) (cube : Text)
    → contains (cubes (upsert_in entries e)) cube
      ≡ (contains (cubes entries) cube || (e.cube == cube))
unfolding contains upsert_in
contains-upsert_in [] e cube = ground arith
contains-upsert_in (x ∷ entries) e cube = ground (
  arith,
  contains-upsert_in entries e cube,
  ==_iff x.cube e.cube,
  ==_iff x.cube cube,
  ==_iff e.cube cube,
)

upsert_in-IsNodup :
    (entries : List Entry) (e : Entry)
    → IsNodup (cubes entries)
    → IsNodup (cubes (upsert_in entries e))
unfolding contains upsert_in
upsert_in-IsNodup [] e h = (refl, tt)
upsert_in-IsNodup (x ∷ entries) e h = elim (Bool-cases (x.cube == e.cube)) [
  | inl t ↦
      rw t (subst (λ c. contains (cubes entries) c ≡ false) ((==_iff x.cube e.cube).0 t) h.0, h.1)
  | inr t ↦ rw t (
    ground (
      arith,
      contains-upsert_in entries e x.cube,
      h.0,
      t,
      ==_iff x.cube e.cube,
      ==_iff e.cube x.cube,
    ),
    upsert_in-IsNodup entries e h.1,
  )
]

upsert_in-IsComplete :
    (entries : List Entry) (e : Entry)
    → IsComplete e
    → Every IsComplete entries
    → Every IsComplete (upsert_in entries e)
unfolding upsert_in
upsert_in-IsComplete [] e c h = (c, tt)
upsert_in-IsComplete (x ∷ entries) e c h = elim (Bool-cases (x.cube == e.cube)) [
  | inl t ↦ rw t (c, h.1)
  | inr t ↦ rw t (h.0, upsert_in-IsComplete entries e c h.1)
]

-- Recording a complete entry keeps a ledger a ledger; then the entry is found for its cube, and for
-- every other cube what was found before.
pub upsert-IsLedger :
    (l : TrustLedger) (e : Entry)
    → IsLedger l
    → IsComplete e
    → IsLedger (upsert l e)
      × ((cube : Text)
          → find_entry (upsert l e) cube ≡ (if e.cube == cube then some e else find_entry l cube))
unfolding upsert find_entry
upsert-IsLedger l e h c = (
  record {
    complete = upsert_in-IsComplete l.entries e c h.complete;
    distinct = upsert_in-IsNodup l.entries e h.distinct;
  },
  λ cube. find_in-upsert_in l.entries e cube,
)

find_in-remove_in :
    (entries : List Entry) (gone cube : Text)
    → find_in (remove_in entries gone) cube ≡ (if gone == cube then none else find_in entries cube)
unfolding find_in remove_in
find_in-remove_in [] gone cube = ground arith
find_in-remove_in (x ∷ entries) gone cube = ground (
  arith,
  find_in-remove_in entries gone cube,
  ==_iff x.cube gone,
  ==_iff x.cube cube,
  ==_iff gone cube,
)

contains-remove_in :
    (entries : List Entry) (gone cube : Text)
    → contains (cubes entries) cube ≡ false
    → contains (cubes (remove_in entries gone)) cube ≡ false
unfolding contains remove_in
contains-remove_in [] gone cube h = refl
contains-remove_in (x ∷ entries) gone cube h =
    ground (arith, contains-remove_in entries gone cube, h)

remove_in-IsLedger :
    (entries : List Entry) (gone : Text)
    → Every IsComplete entries
    → IsNodup (cubes entries)
    → Every IsComplete (remove_in entries gone) × IsNodup (cubes (remove_in entries gone))
unfolding remove_in
remove_in-IsLedger [] gone c d = (tt, tt)
remove_in-IsLedger (x ∷ entries) gone c d =
    let (c', d') = remove_in-IsLedger entries gone c.1 d.1 in
    elim (Bool-cases (x.cube == gone)) [
      | inl t ↦ rw t (c', d')
      | inr t ↦ rw t ((c.0, c'), (contains-remove_in entries gone x.cube d.0, d'))
    ]

-- Removing a cube keeps a ledger a ledger; then nothing is found for that cube, and for every other
-- cube what was found before.
pub remove-IsLedger :
    (l : TrustLedger) (gone : Text)
    → IsLedger l
    → IsLedger (remove l gone)
      × ((cube : Text)
          → find_entry (remove l gone) cube ≡ (if gone == cube then none else find_entry l cube))
unfolding remove find_entry
remove-IsLedger l gone h = (
  let (c, d) = remove_in-IsLedger l.entries gone h.complete h.distinct in
      record { complete = c; distinct = d },
  λ cube. find_in-remove_in l.entries gone cube,
)
