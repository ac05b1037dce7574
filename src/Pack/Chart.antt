-- ===== src/Pack/Chart.antt =====
-- The chart of a helm pack: the type Chart and checkChartVersion of internal/pack/helm.go.
use cube_idp.Base.{
  ◌≡◌, ◌↔◌, not, ◌∷◌, arith, Result, if◌then◌else◌, Text, txt, ◌==◌, ==_iff, ok, err,
}
use cube_idp.Pack.Errors.{PackError, chart_version}

pub record Chart : Type 0 where
  pub kind : Text
  pub url : Text
  pub name : Text
  pub version : Text
  pub digest : Text

-- ChartKindOCI
abbrev pub chart_kind_oci : Text
chart_kind_oci = txt "oci"

-- The argument is semver.Canonical of golang.org/x/mod.
pub check_chart_version : (canonical : Text → Text) → (v : Text) → Result PackError (Unit {0})
check_chart_version canonical v =
    let prefixed = b'v' ∷ v in
    if not (canonical prefixed == prefixed) then err (chart_version v) else ok tt

pub check_chart_version_iff :
    (canonical : Text → Text) (v : Text)
    → (check_chart_version canonical v ≡ ok tt) ↔ (canonical (b'v' ∷ v) ≡ b'v' ∷ v)
unfolding check_chart_version
check_chart_version_iff canonical v = ground (arith, ==_iff (canonical (b'v' ∷ v)) (b'v' ∷ v))
