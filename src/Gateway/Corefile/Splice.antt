-- ===== src/Gateway/Corefile/Splice.antt =====
-- CorefileSplice of internal/gateway/corefile.go: it succeeds exactly on the divisions of Site.
use cube_idp.Base.{
  append_assoc, ℕ, ◌≤◌, ◌<◌, ◌≡◌, refl, sym, ap, ◌∙◌, true, false, Option, none, some, List, [],
  ◌∷◌, ◌++◌, arith, subst, dec_lt, length, Every-of-append, take_at, take_past_at, drop_past_at,
  Result, ◌>>=◌, ok_of_bind, join_lines, Text, ok,
}
use cube_idp.Gateway.Corefile.{
  CorefileError, positions, find_lines, is_default_server_open, marker_range,
  require_server_block_above, only_open, default_server_line, splice_lines, place_block,
}
use cube_idp.Gateway.Corefile.Search.{
  NonePass, positions-nil, IsOnly, positions-IsOnly, split_between, split_same,
}
use cube_idp.Gateway.Corefile.Site.{
  is_begin, is_end, NoMarkers, Site, inserted, replaced, not_both, pair_up-some, pair_up-none,
  only_open-ok,
}

-- CorefileSplice on the lines of the Corefile.
abbrev pub splice :
    (lines : List Text) (cube : Text) (block : List Text) → Result CorefileError Text
splice lines cube block = marker_range lines cube >>= λ range. place_block lines block range

-- What a splice that succeeds has done.
pub record IsSpliced (cube : Text) (lines block : List Text) (out : Text) : Type 0 where
  pub before : List Text
  pub old : List Text
  pub after : List Text
  pub split : lines ≡ before ++ (old ++ after)
  pub result : out ≡ join_lines (before ++ (block ++ after))
  pub site : Site cube before old after

-- The replace path: one begin and one end marker, at positions `i` and `k`.
module _ (cube : Text) (lines block : List Text) (out : Text) {i k : ℕ}
    (b : IsOnly (is_begin cube) 0 lines i) (e : IsOnly (is_end cube) 0 lines k) where
  ends_later : i ≤ k → length b.above < length e.above
  ends_later h = elim (dec_lt (length b.above) (length e.above)) [
    | yes lt ↦ lt
    | no ge ↦
        let same : length b.above ≡ length e.above = omega (arith, b.place, e.place) in
        let one_line : b.line ≡ e.line =
          split_same b.above b.below e.above e.below b.line e.line (sym b.split ∙ e.split) same in
        absurd (
          not_both cube b.line b.passes (subst (λ l. is_end cube l ≡ true) (sym one_line) e.passes))
  ]

  IsSpliced-replaced :
      i ≤ k → place_block lines block (some (i, k)) ≡ ok out → IsSpliced cube lines block out
  unfolding place_block require_server_block_above splice_lines
  IsSpliced-replaced h q =
      let (mid, above_e, below_b) =
        split_between b.above b.below e.above e.below b.line e.line (sym b.split ∙ e.split)
          (ends_later h) in
      let kept_above = take_at b.above b.place (b.line ∷ b.below) b.split in
      let kept_below = drop_past_at e.above e.place e.line e.below e.split in
      let (none_before, none_later) =
        Every-of-append (λ l. is_end cube l ≡ false) b.above (b.line ∷ mid)
          (subst (NonePass (is_end cube)) above_e e.none_above) in
      let (none_mid, none_after) =
        Every-of-append (λ l. is_begin cube l ≡ false) mid (e.line ∷ e.below)
          (subst (NonePass (is_begin cube)) below_b b.none_below) in
      record {
        before = b.above;
        old = b.line ∷ mid ++ e.line ∷ [];
        after = e.below;
        split =
            b.split
            ∙ ap (λ l. b.above ++ b.line ∷ l)
                (below_b ∙ sym (append_assoc mid (e.line ∷ []) e.below));
        result = ground (arith, kept_above, kept_below, q);
        site =
            replaced b.line mid e.line refl b.passes e.passes (b.none_above, none_before)
              (none_mid, none_later.1) (none_after.1, e.none_below) (ground (arith, kept_above, q));
      }

-- The insert path: no marker, and one opening line at position `i`.
module _ (cube : Text) (lines block : List Text) (out : Text) where
  IsSpliced-inserted :
      NoMarkers cube lines → place_block lines block none ≡ ok out → IsSpliced cube lines block out
  unfolding place_block default_server_line splice_lines
  IsSpliced-inserted (nb, ne) q =
      let (i, found, done) =
        ok_of_bind (only_open (positions is_default_server_open 0 lines)) _ q in
      let o = positions-IsOnly is_default_server_open 0 lines i (only_open-ok _ i found) in
      let kept_above = take_past_at o.above o.place o.line o.below o.split in
      let kept_below = drop_past_at o.above o.place o.line o.below o.split in
      let split : lines ≡ (o.above ++ o.line ∷ []) ++ o.below =
        o.split ∙ sym (append_assoc o.above (o.line ∷ []) o.below) in
      let (b_above, b_below) =
        Every-of-append (λ l. is_begin cube l ≡ false) (o.above ++ o.line ∷ []) o.below
          (subst (NonePass (is_begin cube)) split nb) in
      let (e_above, e_below) =
        Every-of-append (λ l. is_end cube l ≡ false) (o.above ++ o.line ∷ []) o.below
          (subst (NonePass (is_end cube)) split ne) in
      record {
        before = o.above ++ o.line ∷ [];
        old = [];
        after = o.below;
        split = split;
        result = ground (arith, kept_above, kept_below, done);
        site =
            inserted o.above o.line refl refl o.passes o.none_above o.none_below (b_above, e_above)
              (b_below, e_below);
      }

  -- A splice that succeeds keeps every line but those from the begin to the end marker of this
  -- cube, and puts the block in their place or, where there are none, below the one opening line.
  pub splice-IsSpliced : splice lines cube block ≡ ok out → IsSpliced cube lines block out
  unfolding marker_range find_lines
  splice-IsSpliced q =
      let (range, m, p) = ok_of_bind (marker_range lines cube) _ q in by_range range m p
    where
      by_range :
          (range : Option (ℕ × ℕ))
          → marker_range lines cube ≡ ok range
          → place_block lines block range ≡ ok out
          → IsSpliced cube lines block out
      by_range none m p =
          let (nb, ne) = pair_up-none _ _ m in
          IsSpliced-inserted (positions-nil _ 0 lines nb, positions-nil _ 0 lines ne) p
      by_range (some (i, k)) m p =
          let (b, e, le) = pair_up-some _ _ i k m in
          IsSpliced-replaced cube lines block out (positions-IsOnly _ 0 lines i b)
            (positions-IsOnly _ 0 lines k e) le p
