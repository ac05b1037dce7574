-- ===== src/Gateway/Corefile/Block.antt =====
-- renderBlock of internal/gateway/corefile.go: its markers are the cube's, and its other lines are
-- no markers.
use cube_idp.Base.{
  ◌≡◌, refl, ◌≢◌, true, false, List, [], ◌∷◌, ◌++◌, Every, is_space, trim_left, trim_right,
  trim_space, quote_meta, Text, txt, ◌==◌, ==_iff, IsLine, trim_right-cons, trim_right-append,
  trim_right_solid, IsLine-append, solid-IsLine, quote_meta-IsLine, has_no_newline,
  has_no_newline-IsLine,
}
use cube_idp.Gateway.Corefile.{
  block_indent, rule_indent, begin_marker, end_marker, service_fqdn, render_block,
}
use cube_idp.Gateway.Corefile.Site.{is_begin, is_end, NoMarkers, Site, replaced}
use cube_idp.Gateway.Corefile.{any_server_open}

-- A cube name without white space, as the document's validation leaves it.
pub record IsCubeName (cube : Text) : Type 0 where
  pub inhabited : cube ≢ []
  pub solid : Every (λ c. is_space c ≡ false) cube

abbrev rule_line : Text → Text
rule_line domain =
    rule_indent
    ++ (txt "name regex (.*)\\." ++ (quote_meta domain ++ (txt "\\.$ " ++ service_fqdn)))

abbrev middle : Text → List Text
middle domain =
    (block_indent ++ txt "rewrite stop {")
    ∷ rule_line domain
    ∷ (rule_indent ++ txt "answer auto")
    ∷ (block_indent ++ txt "}")
    ∷ []

module _ (cube : Text) (named : IsCubeName cube) where
  begin_found : is_begin cube (block_indent ++ begin_marker cube) ≡ true
  unfolding trim_space trim_left is_space
  begin_found =
      let e =
        trim_right-append (txt "# cube-idp:begin ") cube (trim_right_solid cube named.solid)
          named.inhabited in
      (==_iff _ _).1 e

  end_found : is_end cube (block_indent ++ end_marker cube) ≡ true
  unfolding trim_space trim_left is_space
  end_found =
      let e =
        trim_right-append (txt "# cube-idp:end ") cube (trim_right_solid cube named.solid)
          named.inhabited in
      (==_iff _ _).1 e

rule_not_marker : (domain rest : Text) → (trim_space (rule_line domain) == (b'#' ∷ rest)) ≡ false
unfolding trim_space trim_left is_space ◌==◌
rule_not_marker domain rest = rw (
    trim_right-cons b'n'
      (txt "ame regex (.*)\\." ++ (quote_meta domain ++ (txt "\\.$ " ++ service_fqdn))) refl)

middle-NoMarkers : (cube domain : Text) → NoMarkers cube (middle domain)
unfolding trim_space trim_left trim_right is_space ◌==◌
middle-NoMarkers cube domain = (
  (refl, (rule_not_marker domain _, (refl, (refl, tt)))),
  (refl, (rule_not_marker domain _, (refl, (refl, tt)))),
)

-- The block of a cube has a place where it stands.
pub block-Site :
    (cube domain : Text) (before after : List Text)
    → IsCubeName cube
    → NoMarkers cube before
    → NoMarkers cube after
    → any_server_open before ≡ true
    → Site cube before (render_block cube domain) after
unfolding render_block
block-Site cube domain before after named nb na opened =
    replaced (block_indent ++ begin_marker cube) (middle domain) (block_indent ++ end_marker cube)
      refl (begin_found cube named) (end_found cube named) nb (middle-NoMarkers cube domain) na
      opened

literal-IsLine : (p s : Text) → has_no_newline p ≡ true → IsLine s → IsLine (p ++ s)
literal-IsLine p s h l = IsLine-append p s (has_no_newline-IsLine p h) l

pub block-IsLine :
    (cube domain : Text) → IsCubeName cube → IsLine domain → Every IsLine (render_block cube domain)
unfolding render_block has_no_newline
block-IsLine cube domain named d =
    let cube_line = solid-IsLine cube named.solid in
    (
      literal-IsLine (txt "    # cube-idp:begin ") cube refl cube_line,
      (
        has_no_newline-IsLine (block_indent ++ txt "rewrite stop {") refl,
        (
          literal-IsLine (txt "        name regex (.*)\\.") _ refl (
              IsLine-append (quote_meta domain) _ (quote_meta-IsLine domain d)
                (has_no_newline-IsLine (txt "\\.$ " ++ service_fqdn) refl)),
          (
            has_no_newline-IsLine (rule_indent ++ txt "answer auto") refl,
            (
              has_no_newline-IsLine (block_indent ++ txt "}") refl,
              (literal-IsLine (txt "    # cube-idp:end ") cube refl cube_line, tt),
            ),
          ),
        ),
      ),
    )
