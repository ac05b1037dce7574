-- ===== src/Ca/Tests.antt =====
-- Ledgers for internal/ca.
use cube_idp.Base.{
  ◌≡◌, refl, sym, ap, ◌∙◌, ◌≢◌, ◌↔◌, Bool, true, ◌&&◌, Option, none, some, List, [], ◌∷◌, arith,
  false≢true, contains, trim_space, if◌then◌else◌, Text, txt, ◌==◌, ==_iff, ok,
}
use cube_idp.Ca.Ledger.{Entry, TrustLedger, parse_ledger, find_entry, upsert, marshal}
use cube_idp.Ca.Ledger.Parsed.{IsComplete, IsLedger, IsReading, parse_ledger_iff}
use cube_idp.Ca.Ledger.Rendered.{ReadsBack, RoundTrip, marshal-RoundTrip}
use cube_idp.Ca.Ledger.Updated.{upsert-IsLedger}

abbrev entry : Text → Entry
entry cube = record {
  cube = cube;
  fingerprint = txt "ab";
  store = txt "login";
  date = txt "2026-01-01";
}

entry-IsComplete : (cube : Text) → cube ≢ [] → IsComplete (entry cube)
entry-IsComplete cube h = record {
  cube = h;
  fingerprint = λ e. cc;
  store = λ e. cc;
  date = λ e. cc;
}

abbrev ledger : TrustLedger
ledger = record { entries = entry (txt "a") ∷ entry (txt "b") ∷ [] }

ledger-IsLedger : IsLedger ledger
unfolding contains ◌==◌
ledger-IsLedger = record {
  complete = (entry-IsComplete (txt "a") (λ e. cc), (entry-IsComplete (txt "b") (λ e. cc), tt));
  distinct = (refl, (refl, tt));
}

abbrev decode : Text → Option TrustLedger
decode data' = some ledger

parse_ledger_iff_example :
    (parse_ledger decode (txt "entries: ...") ≡ ok ledger)
    ↔ IsReading decode (txt "entries: ...") ledger
parse_ledger_iff_example = parse_ledger_iff decode (txt "entries: ...") ledger

upsert-IsLedger_example :
    IsLedger (upsert ledger (entry (txt "b")))
    × ((cube : Text)
        → find_entry (upsert ledger (entry (txt "b"))) cube
          ≡ (if txt "b" == cube then some (entry (txt "b")) else find_entry ledger cube))
upsert-IsLedger_example =
    upsert-IsLedger ledger (entry (txt "b")) ledger-IsLedger (entry-IsComplete (txt "b") (λ e. cc))

-- An encoder that writes this ledger only.
abbrev same_entry : Entry → Entry → Bool
same_entry e f =
    (e.cube == f.cube)
    && (e.fingerprint == f.fingerprint)
    && (e.store == f.store)
    && (e.date == f.date)

same_entry_eq : (e f : Entry) → same_entry e f ≡ true → e ≡ f
same_entry_eq e f h =
    let c : e.cube ≡ f.cube = (==_iff e.cube f.cube).0 (ground (arith, h)) in
    let p : e.fingerprint ≡ f.fingerprint =
      (==_iff e.fingerprint f.fingerprint).0 (ground (arith, h)) in
    let s : e.store ≡ f.store = (==_iff e.store f.store).0 (ground (arith, h)) in
    let d : e.date ≡ f.date = (==_iff e.date f.date).0 (ground (arith, h)) in
    λ i. record { cube = c i; fingerprint = p i; store = s i; date = d i }

abbrev written : Text
written = txt "entries: ..."

encode_entries : List Entry → Option Text
encode_entries (e ∷ f ∷ []) =
    if same_entry e (entry (txt "a")) && same_entry f (entry (txt "b")) then some written else none
encode_entries other = none

encode : TrustLedger → Option Text
unfolding encode_entries
encode l = encode_entries l.entries

encode_entries_eq :
    (entries : List Entry) (data' : Text)
    → encode_entries entries ≡ some data'
    → (entries ≡ ledger.entries) × (data' ≡ written)
unfolding encode_entries
encode_entries_eq [] data' h = cc
encode_entries_eq (e ∷ []) data' h = cc
encode_entries_eq (e ∷ f ∷ []) data' h =
    let first : same_entry e (entry (txt "a")) ≡ true = ground (arith, h) in
    let second : same_entry f (entry (txt "b")) ≡ true = ground (arith, h) in
    let content : written ≡ data' = ground (arith, h) in
    (
      (λ i.
          same_entry_eq e (entry (txt "a")) first i
          ∷ same_entry_eq f (entry (txt "b")) second i
          ∷ []),
      sym content,
    )
encode_entries_eq (e ∷ f ∷ g ∷ rest) data' h = cc

reads_back : ReadsBack decode encode
unfolding encode trim_space ◌==◌
reads_back l data' h =
    let (e, w) = encode_entries_eq l.entries data' h in
    ((λ blank. not_blank (sym (ap trim_space w) ∙ blank)), λ i. some (record { entries = sym e i }))
  where
    not_blank : trim_space written ≢ []
    not_blank z = false≢true (ap (λ s. s == []) z)

marshal-RoundTrip_example : RoundTrip decode ledger (marshal encode ledger)
marshal-RoundTrip_example = marshal-RoundTrip decode encode ledger reads_back ledger-IsLedger
