-- ===== src/Gateway/Corefile/Converse.antt =====
-- CorefileSplice of internal/gateway/corefile.go: it succeeds wherever the block has a place.
use cube_idp.Base.{
  append_assoc, ◌+◌, ◌≡◌, refl, sym, ap, ◌∙◌, inl, inr, true, false, List, [], ◌∷◌, ◌++◌, arith,
  subst, length, length-append, Every-append, take_at, take_past_at, drop_past_at, join_lines,
  Bool-cases, Text, ok,
}
use cube_idp.Gateway.Corefile.{
  positions, find_lines, is_default_server_open, in_order, pair_up, marker_range, any_server_open,
  require_server_block_above, only_open, default_server_line, splice_lines, place_block,
}
use cube_idp.Gateway.Corefile.Search.{NonePass, positions-NonePass, positions_one}
use cube_idp.Gateway.Corefile.Site.{is_begin, is_end, NoMarkers, Site, inserted, replaced, not_both}
use cube_idp.Gateway.Corefile.Splice.{splice}

not_begin_of_end : (cube line : Text) → is_end cube line ≡ true → is_begin cube line ≡ false
not_begin_of_end cube line e = elim (Bool-cases (is_begin cube line)) [
  | inl b ↦ absurd (not_both cube line b e)
  | inr n ↦ n
]

not_end_of_begin : (cube line : Text) → is_begin cube line ≡ true → is_end cube line ≡ false
not_end_of_begin cube line b = elim (Bool-cases (is_end cube line)) [
  | inl e ↦ absurd (not_both cube line b e)
  | inr n ↦ n
]

module _ (cube : Text) (block : List Text) where
  splice_inserted :
      (above : List Text) (opening : Text) (after : List Text)
      → is_default_server_open opening ≡ true
      → NonePass is_default_server_open above
      → NonePass is_default_server_open after
      → NoMarkers cube (above ++ opening ∷ [])
      → NoMarkers cube after
      → splice ((above ++ opening ∷ []) ++ after) cube block
        ≡ ok (join_lines ((above ++ opening ∷ []) ++ (block ++ after)))
  unfolding marker_range find_lines pair_up place_block default_server_line only_open splice_lines
  splice_inserted above opening after o a b (nb, ne) (mb, me) =
      let split = append_assoc above (opening ∷ []) after in
      let no_begin =
        positions-NonePass (is_begin cube) 0 _
          (Every-append (λ l. is_begin cube l ≡ false) (above ++ opening ∷ []) after nb mb) in
      let no_end =
        positions-NonePass (is_end cube) 0 _
          (Every-append (λ l. is_end cube l ≡ false) (above ++ opening ∷ []) after ne me) in
      let one =
        subst (λ l. positions is_default_server_open 0 l ≡ (0 + length above) ∷ []) (sym split)
          (positions_one is_default_server_open 0 above opening after a o b) in
      let kept_above = take_past_at above {i = 0 + length above} refl opening after split in
      let kept_below = drop_past_at above {i = 0 + length above} refl opening after split in
      ground (arith, no_begin, no_end, one, kept_above, kept_below)

  module _ (before : List Text) (first : Text) (mid : List Text) (last : Text) (after : List Text)
      (b : is_begin cube first ≡ true) (e : is_end cube last ≡ true)
      (none_before : NoMarkers cube before) (none_mid : NoMarkers cube mid)
      (none_after : NoMarkers cube after) (opened : any_server_open before ≡ true) where
    abbrev divided : List Text
    divided = before ++ ((first ∷ mid ++ last ∷ []) ++ after)

    divided_at_begin : divided ≡ before ++ (first ∷ (mid ++ last ∷ after))
    divided_at_begin = ap (λ l. before ++ first ∷ l) (append_assoc mid (last ∷ []) after)

    divided_at_end : divided ≡ (before ++ first ∷ mid) ++ last ∷ after
    divided_at_end = divided_at_begin ∙ sym (append_assoc before (first ∷ mid) (last ∷ after))

    begins_found : positions (is_begin cube) 0 divided ≡ (0 + length before) ∷ []
    begins_found =
        subst (λ l. positions (is_begin cube) 0 l ≡ (0 + length before) ∷ []) (sym divided_at_begin)
          (positions_one (is_begin cube) 0 before first (mid ++ last ∷ after) none_before.0 b (
            Every-append (λ l. is_begin cube l ≡ false) mid (last ∷ after) none_mid.0
              (not_begin_of_end cube last e, none_after.0)))

    ends_found : positions (is_end cube) 0 divided ≡ (0 + length (before ++ first ∷ mid)) ∷ []
    ends_found =
        subst (λ l. positions (is_end cube) 0 l ≡ (0 + length (before ++ first ∷ mid)) ∷ [])
          (sym divided_at_end)
          (positions_one (is_end cube) 0 (before ++ first ∷ mid) last after
            (Every-append (λ l. is_end cube l ≡ false) before (first ∷ mid) none_before.1
              (not_end_of_begin cube first b, none_mid.1))
            e none_after.1)

    splice_replaced : splice divided cube block ≡ ok (join_lines (before ++ (block ++ after)))
    unfolding marker_range find_lines pair_up in_order place_block require_server_block_above
        splice_lines
    splice_replaced =
        let kept_above =
          take_at before {i = 0 + length before} refl (first ∷ (mid ++ last ∷ after))
            divided_at_begin in
        let kept_below =
          drop_past_at (before ++ first ∷ mid) {i = 0 + length (before ++ first ∷ mid)} refl last
            after divided_at_end in
        ground (
          arith,
          begins_found,
          ends_found,
          length-append before (first ∷ mid),
          kept_above,
          kept_below,
          opened,
        )

  -- Wherever the lines have a place for the block, the splice succeeds: it keeps what stands
  -- before and after, and puts the block in place of what stood between.
  pub Site-splice :
      (before old after : List Text)
      → Site cube before old after
      → splice (before ++ (old ++ after)) cube block ≡ ok (join_lines (before ++ (block ++ after)))
  Site-splice before old after (inserted above opening eb eo o na nb m ma) =
      let m' = subst (NoMarkers cube) eb m in
      rw (eb, eo) (splice_inserted above opening after o na nb m' ma)
  Site-splice before old after (replaced first mid last eo b e nb nm na opened) =
      rw eo (splice_replaced before first mid last after b e nb nm na opened)
