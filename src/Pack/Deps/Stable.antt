-- ===== src/Pack/Deps/Stable.antt =====
-- topoSort of internal/pack/deps.go keeps a declared order that needs no change.
use cube_idp.Base.{
  append_assoc, append-nil, ℕ, ◌≡◌, refl, sym, ap, ◌∙◌, true, false, none, some, List, [], ◌∷◌,
  ◌++◌, arith, subst, length, contains, contains-head, contains-append, IsNodup, nodup_split, Dict,
  find, delete, Text, ==-refl, ok,
}
use cube_idp.Pack.Deps.{slice_at, ready_instance, release, sort_rounds, topo_sort}
use cube_idp.Pack.Deps.Counts.{open_count-met}
use cube_idp.Pack.Deps.State.{IsMet, IsOrdered, IsState, IsState-initial, IsState-round}

-- The instances before the first pending one are passed over.
ready_instance-append :
    (done rest : List Text) (next : Text) (remaining : Dict ℕ)
    → ((id : Text) → contains done id ≡ true → find remaining id ≡ none)
    → find remaining next ≡ some 0
    → ready_instance (done ++ next ∷ rest) remaining ≡ some next
unfolding ready_instance contains
ready_instance-append [] rest next remaining h z = ground arith
ready_instance-append (x ∷ done) rest next remaining h z = ground (
  arith,
  h x,
  ==-refl x,
  ready_instance-append done rest next remaining (λ id m. h id (ground (arith, m))) z,
)

module _ (ids : List Text) (deps : Dict (List Text)) (n : IsNodup ids)
    (dn : (id : Text) → IsNodup (slice_at deps id)) where
  next_ready :
      (order rest : List Text) (next : Text) {left : ℕ} {remaining : Dict ℕ}
      → ids ≡ order ++ next ∷ rest
      → IsMet ids deps order next
      → contains order next ≡ false
      → IsState ids deps left remaining order
      → ready_instance ids remaining ≡ some next
  next_ready order rest next {remaining = remaining} e met new s =
      subst (λ l. ready_instance l remaining ≡ some next) (sym e)
        (ready_instance-append order rest next remaining (λ id m. ground (arith, s.counts id, m))
          (ground (
            arith,
            s.counts next,
            open_count-met ids order (slice_at deps next) met,
            ap (λ l. contains l next) e,
            contains-append order (next ∷ rest) next,
            contains-head next rest,
          )))

  keeps_rest :
      (order rest : List Text) (remaining : Dict ℕ)
      → ids ≡ order ++ rest
      → IsOrdered ids deps order rest
      → IsState ids deps (length rest) remaining order
      → sort_rounds (length rest) ids deps remaining order ≡ ok ids
  unfolding sort_rounds
  keeps_rest order [] remaining e h s = ap ok (sym (append-nil order) ∙ sym e)
  keeps_rest order (next ∷ rest) remaining e h s =
      let new = nodup_split order next rest (subst IsNodup e n) in
      let r = next_ready order rest next e h.0 new s in
      rw (r, sort_rounds)
        (keeps_rest (order ++ next ∷ []) rest (release ids deps next (delete remaining next))
          (e ∙ sym (append_assoc order (next ∷ []) rest)) h.1 (IsState-round ids deps n dn s r))

  -- For distinct instances with distinct dependencies: if the declared order already has every
  -- dependency before its dependent, sorting returns the declared order.
  pub topo_sort_stable : IsOrdered ids deps [] ids → topo_sort ids deps ≡ ok ids
  unfolding topo_sort
  topo_sort_stable h = keeps_rest [] ids _ refl h (IsState-initial ids deps n dn)
