-- ===== src/Ca/Ledger/Parsed.antt =====
-- Which ledgers ParseLedger of internal/ca/ledger.go accepts.
use cube_idp.Base.{
  ℕ, suc, ◌≡◌, refl, sym, ap, ◌∙◌, ◌≢◌, ◌↔◌, ◌⊎◌, inl, inr, Bool, true, false, Option, none, some,
  List, [], ◌∷◌, map, arith, subst, false≢true, Every, contains, IsNodup, trim_space, if◌then◌else◌,
  Text, ◌==◌, ==_iff, ok,
}
use cube_idp.Ca.Ledger.{
  Entry, TrustLedger, LedgerError, check_entry, check_entries, checked, decoded, parse_ledger,
}

-- All four fields are set.
pub record IsComplete (e : Entry) : Type 0 where
  pub cube : e.cube ≢ []
  pub fingerprint : e.fingerprint ≢ []
  pub store : e.store ≢ []
  pub date : e.date ≢ []

abbrev pub cubes : List Entry → List Text
cubes entries = map (λ e. e.cube) entries

-- Complete entries, at most one for each cube.
pub record IsLedger (l : TrustLedger) : Type 0 where
  pub complete : Every IsComplete l.entries
  pub distinct : IsNodup (cubes l.entries)

check_entry_iff :
    (seen : List Text) (i : ℕ) (e : Entry)
    → (check_entry seen i e ≡ none) ↔ (
        (e.cube ≢ [])
        × (e.fingerprint ≢ [])
        × (e.store ≢ [])
        × (e.date ≢ [])
        × (contains seen e.cube ≡ false))
unfolding check_entry
check_entry_iff seen i e =
    ground (arith, ==_iff e.cube [], ==_iff e.fingerprint [], ==_iff e.store [], ==_iff e.date [])

abbrev IsUnseen : List Text → Text → Type 0
IsUnseen seen cube = contains seen cube ≡ false

abbrev Accepted : List Text → List Entry → Type 0
Accepted seen entries =
    Every IsComplete entries × IsNodup (cubes entries) × Every (IsUnseen seen) (cubes entries)

IsUnseen-cons_iff :
    (seen : List Text) (cube : Text) (others : List Text)
    → Every (IsUnseen (cube ∷ seen)) others
      ↔ ((contains others cube ≡ false) × Every (IsUnseen seen) others)
unfolding contains
IsUnseen-cons_iff seen cube [] = ((λ h. (refl, tt)), (λ h. tt))
IsUnseen-cons_iff seen cube (x ∷ others) =
    let rest = IsUnseen-cons_iff seen cube others in
    (
      (λ h.
          let (absent, unseen) = rest.0 h.1 in
          (
            ground (arith, h.0, absent, ==_iff cube x, ==_iff x cube),
            (ground (arith, h.0), unseen),
          )),
      (λ h. (
        ground (arith, h.0, h.1.0, ==_iff cube x, ==_iff x cube),
        rest.1 (ground (arith, h.0), h.1.1),
      )),
    )

check_entries_iff :
    (seen : List Text) (i : ℕ) (entries : List Entry)
    → (check_entries seen i entries ≡ none) ↔ Accepted seen entries
unfolding check_entries
check_entries_iff seen i [] = ((λ h. (tt, tt, tt)), (λ h. refl))
check_entries_iff seen i (e ∷ entries) =
    by_entry (check_entry seen i e) (check_entry_iff seen i e)
      (check_entries_iff (e.cube ∷ seen) (suc i) entries)
      (IsUnseen-cons_iff seen e.cube (cubes entries))
  where
    by_entry :
        (o : Option LedgerError)
        → (o ≡ none) ↔ (
            (e.cube ≢ [])
            × (e.fingerprint ≢ [])
            × (e.store ≢ [])
            × (e.date ≢ [])
            × (contains seen e.cube ≡ false))
        → (check_entries (e.cube ∷ seen) (suc i) entries ≡ none) ↔ Accepted (e.cube ∷ seen) entries
        → Every (IsUnseen (e.cube ∷ seen)) (cubes entries)
          ↔ ((contains (cubes entries) e.cube ≡ false) × Every (IsUnseen seen) (cubes entries))
        → ((elim o [
          | some problem ↦ some problem
          | none ↦ check_entries (e.cube ∷ seen) (suc i) entries
        ])
            ≡ none)
          ↔ Accepted seen (e ∷ entries)
    by_entry none here rest unseen =
        let (c, f, s, d, u) = here.0 refl in
        (
          (λ h.
              let (complete, distinct, free) = rest.0 h in
              let (absent, others) = unseen.0 free in
              (
                (record { cube = c; fingerprint = f; store = s; date = d }, complete),
                (absent, distinct),
                (u, others),
              )),
          (λ h. rest.1 (h.0.1, h.1.1, unseen.1 (h.1.0, h.2.1))),
        )
    by_entry (some problem) here rest unseen = (
      (λ h. cc),
      (λ h.
          let e' = h.0.0 in
          let wrong = here.1 (e'.cube, e'.fingerprint, e'.store, e'.date, h.2.0) in cc),
    )

-- What is read: nothing from blank bytes, and else the ledger that the bytes encode.
abbrev pub IsReading : (decode : Text → Option TrustLedger) → Text → TrustLedger → Type 0
IsReading decode data' ledger =
    ((trim_space data' ≡ []) × (ledger ≡ record { entries = [] }))
    ⊎ ((trim_space data' ≢ []) × (decode data' ≡ some ledger) × IsLedger ledger)

none_seen : (others : List Text) → Every (IsUnseen []) others
unfolding contains
none_seen [] = tt
none_seen (x ∷ others) = (refl, none_seen others)

ok-checked_iff :
    (l ledger : TrustLedger)
    → (checked l (check_entries [] 0 l.entries) ≡ ok ledger) ↔ ((l ≡ ledger) × IsLedger ledger)
unfolding checked
ok-checked_iff l ledger = by_check (check_entries [] 0 l.entries) (check_entries_iff [] 0 l.entries)
  where
    by_check :
        (o : Option LedgerError)
        → (o ≡ none) ↔ Accepted [] l.entries
        → (checked l o ≡ ok ledger) ↔ ((l ≡ ledger) × IsLedger ledger)
    by_check none i =
        let (c, d, u) = i.0 refl in
        (
          (λ h.
              let e : l ≡ ledger = cc in
              (e, subst IsLedger e (record { complete = c; distinct = d }))),
          (λ h. ap ok h.0),
        )
    by_check (some problem) i = (
      (λ h. cc),
      (λ h.
          let v = subst IsLedger (sym h.0) h.1 in
          let wrong = i.1 (v.complete, v.distinct, none_seen (cubes l.entries)) in cc),
    )

ok-decoded_iff :
    (o : Option TrustLedger) (ledger : TrustLedger)
    → (decoded o ≡ ok ledger) ↔ ((o ≡ some ledger) × IsLedger ledger)
unfolding decoded
ok-decoded_iff none ledger = ((λ h. cc), (λ h. let e = h.0 in cc))
ok-decoded_iff (some l) ledger =
    let both = ok-checked_iff l ledger in
    (
      (λ h. let (e, v) = both.0 h in (ap some e, v)),
      (λ h. let f = h.0 in let e : l ≡ ledger = cc in both.1 (e, h.1)),
    )

-- ParseLedger returns a ledger exactly if the bytes are blank, for the empty ledger, or they encode
-- it and it has only complete entries, at most one for each cube.
pub parse_ledger_iff :
    (decode : Text → Option TrustLedger) (data' : Text) (ledger : TrustLedger)
    → (parse_ledger decode data' ≡ ok ledger) ↔ IsReading decode data' ledger
unfolding parse_ledger
parse_ledger_iff decode data' ledger =
    by_test (trim_space data' == []) (==_iff (trim_space data') []) refl
  where
    by_test :
        (blank : Bool)
        → ((trim_space data' == []) ≡ true) ↔ (trim_space data' ≡ [])
        → (trim_space data' == []) ≡ blank
        → ((if blank then ok (record { entries = [] }) else decoded (decode data')) ≡ ok ledger)
          ↔ IsReading decode data' ledger
    by_test true i e = (
      (λ h. inl (i.0 e, cc)),
      (λ h. elim h [ inl b ↦ ap ok (sym b.1) | inr f ↦ absurd (f.0 (i.0 e)) ]),
    )
    by_test false i e =
        let both = ok-decoded_iff (decode data') ledger in
        (
          (λ h. let (d, v) = both.0 h in inr ((λ b. false≢true (sym e ∙ i.1 b)), d, v)),
          (λ h. elim h [
            | inl b ↦ absurd (false≢true (sym e ∙ i.1 b.0))
            | inr f ↦ both.1 (f.1, f.2)
          ]),
        )
