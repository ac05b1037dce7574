-- ===== src/Gateway/Corefile/Update.antt =====
-- CorefileSplice of internal/gateway/corefile.go, applied to a Corefile that it has written.
use cube_idp.Base.{
  ◌≡◌, sym, ap, ◌∙◌, ◌≢◌, true, List, [], ◌∷◌, ◌++◌, arith, subst, Every, Every-append,
  Every-of-append, split_lines, join_lines, Text, IsLine, split_lines-join_lines,
  split_lines-IsLine, ok,
}
use cube_idp.Gateway.Corefile.{render_block, corefile_splice, any_server_open}
use cube_idp.Gateway.Corefile.Search.{any_server_open-append}
use cube_idp.Gateway.Corefile.Site.{NoMarkers, Site, inserted, replaced}
use cube_idp.Gateway.Corefile.Splice.{IsSpliced, splice-IsSpliced}
use cube_idp.Gateway.Corefile.Converse.{Site-splice}
use cube_idp.Gateway.Corefile.Block.{IsCubeName, block-Site, block-IsLine}

-- If CorefileSplice succeeds, the lines of the Corefile are those above the block, the old block
-- (none, or the lines from the cube's begin marker to its end marker) and those below it; its
-- result has the lines above and below unchanged, with the rendered block between them.
pub corefile_splice-IsSpliced :
    (corefile cube domain out : Text)
    → corefile_splice corefile cube domain ≡ ok out
    → IsSpliced cube (split_lines corefile) (render_block cube domain) out
unfolding corefile_splice
corefile_splice-IsSpliced corefile cube domain out h =
    splice-IsSpliced cube (split_lines corefile) (render_block cube domain) out h

-- If the lines of the Corefile have a place for the block of the cube (one intact pair of its
-- markers below an opening line of the default server block, or no marker and one opening line),
-- CorefileSplice succeeds, with the rendered block in that place and all other lines unchanged.
pub corefile_splice_total :
    (corefile cube domain : Text) (before old after : List Text)
    → split_lines corefile ≡ before ++ (old ++ after)
    → Site cube before old after
    → corefile_splice corefile cube domain
      ≡ ok (join_lines (before ++ (render_block cube domain ++ after)))
unfolding corefile_splice
corefile_splice_total corefile cube domain before old after e s =
    rw e (Site-splice cube (render_block cube domain) before old after s)

-- What a place for the block says of the lines that are kept.
record IsKept (cube : Text) (before after : List Text) : Type 0 where
  none_before : NoMarkers cube before
  none_after : NoMarkers cube after
  opened : any_server_open before ≡ true

Site-IsKept :
    (cube : Text) (before old after : List Text)
    → Site cube before old after
    → IsKept cube before after
unfolding any_server_open
Site-IsKept cube before old after (inserted above opening eb eo o na nb m ma) = record {
  none_before = m;
  none_after = ma;
  opened = rw eb (ground (arith, any_server_open-append above (opening ∷ []), o));
}
Site-IsKept cube before old after (replaced first mid last eo b e nb nm na opened) = record {
  none_before = nb;
  none_after = na;
  opened = opened;
}

ne_nil_of_opened : (lines rest : List Text) → any_server_open lines ≡ true → lines ++ rest ≢ []
unfolding any_server_open
ne_nil_of_opened [] rest h e = cc
ne_nil_of_opened (x ∷ lines) rest h e = cc

-- Splicing a Corefile that a splice for the same cube has written is splicing the original: the
-- old domain leaves no trace, and a second splice with the same domain changes nothing. The cube's
-- name has no white space and the first domain no newline.
pub corefile_splice_again :
    (corefile cube first second out : Text)
    → IsCubeName cube
    → IsLine first
    → corefile_splice corefile cube first ≡ ok out
    → corefile_splice out cube second ≡ corefile_splice corefile cube second
corefile_splice_again corefile cube first second out named line h =
    let s = corefile_splice-IsSpliced corefile cube first out h in
    let kept = Site-IsKept cube s.before s.old s.after s.site in
    let (lines_before, later) =
      Every-of-append IsLine s.before (s.old ++ s.after)
        (subst (Every IsLine) s.split (split_lines-IsLine corefile)) in
    let lines_after = (Every-of-append IsLine s.old s.after later).1 in
    let block = render_block cube first in
    let written : split_lines out ≡ s.before ++ (block ++ s.after) =
      ap split_lines s.result
      ∙ split_lines-join_lines (s.before ++ (block ++ s.after))
          (Every-append IsLine s.before (block ++ s.after) lines_before
            (Every-append IsLine block s.after (block-IsLine cube first named line) lines_after))
          (ne_nil_of_opened s.before (block ++ s.after) kept.opened) in
    corefile_splice_total out cube second s.before block s.after written
      (block-Site cube first s.before s.after named kept.none_before kept.none_after kept.opened)
    ∙ sym (corefile_splice_total corefile cube second s.before s.old s.after s.split s.site)
