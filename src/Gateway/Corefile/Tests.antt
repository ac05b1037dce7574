-- ===== src/Gateway/Corefile/Tests.antt =====
-- A Corefile, and what internal/gateway/corefile.go makes of it.
use cube_idp.Base.{
  ◌≡◌, refl, List, [], ◌∷◌, ◌++◌, has_prefix, is_space, trim_space, has_suffix, split_lines,
  join_lines, quote_meta, Text, txt, ◌==◌, ok, err,
}
use cube_idp.Gateway.Corefile.{
  no_server_block, no_end_marker, render_block, corefile_splice, is_default_server_open,
}
use cube_idp.Gateway.Corefile.Site.{Site, inserted}
use cube_idp.Gateway.Corefile.Splice.{IsSpliced}
use cube_idp.Gateway.Corefile.Block.{IsCubeName}
use cube_idp.Gateway.Corefile.Update.{
  corefile_splice-IsSpliced, corefile_splice_total, corefile_splice_again,
}

abbrev above : List Text
above = txt "# dns" ∷ []

abbrev opening : Text
opening = txt ".:53 {"

abbrev below : List Text
below = txt "    errors" ∷ txt "}" ∷ []

abbrev corefile : Text
corefile = join_lines ((above ++ opening ∷ []) ++ below)

abbrev spliced : Text
spliced = join_lines ((above ++ opening ∷ []) ++ (render_block (txt "dev") (txt "a.b") ++ below))

program : Unit {0}
unfolding corefile_splice ◌==◌ split_lines join_lines trim_space has_prefix has_suffix
    is_default_server_open
program = tt

corefile-spliced : corefile_splice corefile (txt "dev") (txt "a.b") ≡ ok spliced
unfolding program
corefile-spliced = refl

quoted_domain :
    render_block (txt "dev") (txt "a.b")
    ≡ txt "    # cube-idp:begin dev"
      ∷ txt "    rewrite stop {"
      ∷ txt "        name regex (.*)\\.a\\.b\\.$ gateway.gateway-system.svc.cluster.local."
      ∷ txt "        answer auto"
      ∷ txt "    }"
      ∷ txt "    # cube-idp:end dev"
      ∷ []
unfolding render_block quote_meta
quoted_domain = refl

no_server : corefile_splice (txt "errors") (txt "dev") (txt "a.b") ≡ err no_server_block
unfolding program
no_server = refl

unmatched : corefile_splice (txt "# cube-idp:begin dev") (txt "dev") (txt "a.b") ≡ err no_end_marker
unfolding program
unmatched = refl

dev-IsCubeName : IsCubeName (txt "dev")
unfolding is_space
dev-IsCubeName = record { inhabited = λ e. cc; solid = (refl, (refl, (refl, tt))) }

corefile_splice-IsSpliced_example :
    IsSpliced (txt "dev") (split_lines corefile) (render_block (txt "dev") (txt "a.b")) spliced
corefile_splice-IsSpliced_example =
    corefile_splice-IsSpliced corefile (txt "dev") (txt "a.b") spliced corefile-spliced

corefile-Site : Site (txt "dev") (above ++ opening ∷ []) [] below
unfolding program
corefile-Site =
    inserted above opening refl refl refl (refl, tt) (refl, (refl, tt))
      ((refl, (refl, tt)), (refl, (refl, tt))) ((refl, (refl, tt)), (refl, (refl, tt)))

corefile-lines : split_lines corefile ≡ (above ++ opening ∷ []) ++ ([] ++ below)
unfolding split_lines join_lines
corefile-lines = refl

corefile_splice_total_example : corefile_splice corefile (txt "dev") (txt "a.b") ≡ ok spliced
corefile_splice_total_example =
    corefile_splice_total corefile (txt "dev") (txt "a.b") (above ++ opening ∷ []) [] below
      corefile-lines corefile-Site

corefile_splice_again_example :
    corefile_splice spliced (txt "dev") (txt "c") ≡ corefile_splice corefile (txt "dev") (txt "c")
corefile_splice_again_example =
    corefile_splice_again corefile (txt "dev") (txt "a.b") (txt "c") spliced dev-IsCubeName
      (refl, (refl, (refl, tt))) corefile-spliced
