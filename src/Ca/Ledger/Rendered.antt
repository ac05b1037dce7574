-- ===== src/Ca/Ledger/Rendered.antt =====
-- Marshal of internal/ca/ledger.go, read back.
use cube_idp.Base.{
  ◌≡◌, refl, sym, ap, ◌∙◌, ◌≢◌, inl, inr, Bool, true, false, Option, none, some, List, [], ◌∷◌,
  arith, subst, false≢true, Every, IsNodup, Result, text_le, insert_text, sort_texts, IsSorted,
  sort_texts-IsSorted, sort_texts-IsNodup, trim_space, if◌then◌else◌, Bool-cases, Text, ◌==◌,
  ==_iff, ok, err,
}
use cube_idp.Ca.Ledger.{
  Entry, TrustLedger, LedgerError, not_rendered, parse_ledger, find_in, find_entry, insert_entry,
  sort_entries, rendered, marshal,
}
use cube_idp.Ca.Ledger.Parsed.{IsComplete, cubes, IsLedger, parse_ledger_iff}

cubes-insert_entry :
    (e : Entry) (entries : List Entry)
    → cubes (insert_entry e entries) ≡ insert_text e.cube (cubes entries)
unfolding insert_entry insert_text
cubes-insert_entry e [] = refl
cubes-insert_entry e (x ∷ entries) = elim (Bool-cases (text_le e.cube x.cube)) [
  | inl t ↦ rw t refl
  | inr t ↦ rw t (ap (λ l. x.cube ∷ l) (cubes-insert_entry e entries))
]

cubes-sort_entries :
    (entries : List Entry) → cubes (sort_entries entries) ≡ sort_texts (cubes entries)
unfolding sort_entries sort_texts
cubes-sort_entries [] = refl
cubes-sort_entries (e ∷ entries) =
    cubes-insert_entry e (sort_entries entries)
    ∙ ap (insert_text e.cube) (cubes-sort_entries entries)

insert_entry-IsComplete :
    (e : Entry) (entries : List Entry)
    → IsComplete e
    → Every IsComplete entries
    → Every IsComplete (insert_entry e entries)
unfolding insert_entry
insert_entry-IsComplete e [] c h = (c, tt)
insert_entry-IsComplete e (x ∷ entries) c h = elim (Bool-cases (text_le e.cube x.cube)) [
  | inl t ↦ rw t (c, h)
  | inr t ↦ rw t (h.0, insert_entry-IsComplete e entries c h.1)
]

sort_entries-IsComplete :
    (entries : List Entry) → Every IsComplete entries → Every IsComplete (sort_entries entries)
unfolding sort_entries
sort_entries-IsComplete [] h = tt
sort_entries-IsComplete (e ∷ entries) h =
    insert_entry-IsComplete e (sort_entries entries) h.0 (sort_entries-IsComplete entries h.1)

text_le_refl : (s : Text) → text_le s s ≡ true
unfolding text_le
text_le_refl [] = refl
text_le_refl (c ∷ s) = ground (arith, text_le_refl s)

find_in-insert_entry :
    (e : Entry) (entries : List Entry) (cube : Text)
    → find_in (insert_entry e entries) cube
      ≡ (if e.cube == cube then some e else find_in entries cube)
unfolding find_in insert_entry
find_in-insert_entry e [] cube = refl
find_in-insert_entry e (x ∷ entries) cube =
    by_order (text_le e.cube x.cube) refl (find_in-insert_entry e entries cube)
  where
    by_order :
        (b : Bool)
        → text_le e.cube x.cube ≡ b
        → find_in (insert_entry e entries) cube
          ≡ (if e.cube == cube then some e else find_in entries cube)
        → find_in (if b then e ∷ x ∷ entries else x ∷ insert_entry e entries) cube
          ≡ (if e.cube == cube then some e else find_in (x ∷ entries) cube)
    by_order true t rest = refl
    by_order false t rest =
        let other : e.cube ≢ x.cube =
          λ z. false≢true (sym t ∙ subst (λ c. text_le e.cube c ≡ true) z (text_le_refl e.cube)) in
        ground (arith, rest, other, ==_iff e.cube cube, ==_iff x.cube cube)

find_in-sort_entries :
    (entries : List Entry) (cube : Text)
    → find_in (sort_entries entries) cube ≡ find_in entries cube
unfolding find_in sort_entries
find_in-sort_entries [] cube = refl
find_in-sort_entries (e ∷ entries) cube =
    find_in-insert_entry e (sort_entries entries) cube
    ∙ ap (λ o. if e.cube == cube then some e else o) (find_in-sort_entries entries cube)

sort_entries-IsLedger :
    (l : TrustLedger) → IsLedger l → IsLedger (record { entries = sort_entries l.entries })
sort_entries-IsLedger l h = record {
  complete = sort_entries-IsComplete l.entries h.complete;
  distinct =
      subst IsNodup (sym (cubes-sort_entries l.entries))
        (sort_texts-IsNodup (cubes l.entries) h.distinct);
}

-- What the encoder writes is not blank, and the decoder reads it back.
abbrev pub ReadsBack :
    (decode : Text → Option TrustLedger) (encode : TrustLedger → Option Text) → Type 0
ReadsBack decode encode =
    (l : TrustLedger) (data' : Text)
    → encode l ≡ some data'
    → (trim_space data' ≢ []) × (decode data' ≡ some l)

-- A ledger read back: its entries ascend by cube, and each cube has the entry it had.
abbrev pub ReadAs : TrustLedger → Result LedgerError TrustLedger → Type 0
ReadAs l (ok l') =
    IsSorted (cubes l'.entries) × ((cube : Text) → find_entry l' cube ≡ find_entry l cube)
ReadAs l (err e) = ⊥

-- What is parsed of the rendered bytes, or that nothing was rendered.
abbrev pub RoundTrip :
    (decode : Text → Option TrustLedger) → TrustLedger → Result LedgerError Text → Type 0
RoundTrip decode l (ok data') = ReadAs l (parse_ledger decode data')
RoundTrip decode l (err e) = e ≡ not_rendered

-- With a decoder that reads the encoder's output back: a well-formed ledger that Marshal renders is
-- accepted by ParseLedger, with its entries in ascending order of their cubes and the same entry
-- found for every cube. Marshal's only error is that of the encoder.
pub marshal-RoundTrip :
    (decode : Text → Option TrustLedger) (encode : TrustLedger → Option Text) (l : TrustLedger)
    → ReadsBack decode encode
    → IsLedger l
    → RoundTrip decode l (marshal encode l)
unfolding marshal rendered find_entry
marshal-RoundTrip decode encode l law h =
    by_encoding (encode (record { entries = sort_entries l.entries })) refl
  where
    by_encoding :
        (o : Option Text)
        → encode (record { entries = sort_entries l.entries }) ≡ o
        → RoundTrip decode l (rendered o)
    by_encoding none e = refl
    by_encoding (some data') e =
        let sorted : TrustLedger = record { entries = sort_entries l.entries } in
        let (full, same) = law sorted data' e in
        let parsed : parse_ledger decode data' ≡ ok sorted =
          (parse_ledger_iff decode data' sorted).1 (inr (full, same, sort_entries-IsLedger l h)) in
        let ascending : IsSorted (cubes (sort_entries l.entries)) =
          subst IsSorted (sym (cubes-sort_entries l.entries))
            (sort_texts-IsSorted (cubes l.entries)) in
        subst (ReadAs l) (sym parsed) (ascending, λ cube. find_in-sort_entries l.entries cube)
