-- ===== src/Judgment/Tests.antt =====
-- A repository for the judgment of internal/engine/flux and internal/gateway.
use cube_idp.Base.{◌≡◌, ◌↔◌, true, txt, ok}
use cube_idp.Base.Document.{pos, int, str, arr, obj, nil, cons, Fields, end, field}
use cube_idp.Judgment.{recognized_by_flux, reconciled}
use cube_idp.Judgment.Current.{IsReadyNow, IsCurrent, conditions_of, verdict, reconciled_iff}

abbrev repository : Fields
repository = field (txt "apiVersion") (str (txt "source.toolkit.fluxcd.io/v1")) (
    field (txt "kind") (str (txt "GitRepository")) (
      field (txt "status")
        (obj (
          field (txt "observedGeneration") (int (pos 2)) (
            field (txt "conditions")
              (arr (
                cons
                  (obj (
                    field (txt "type") (str (txt "Ready"))
                      (field (txt "status") (str (txt "True")) end)))
                  nil))
              end)))
        (field (txt "metadata") (obj (field (txt "generation") (int (pos 2)) end)) end)))

reconciled_iff_example : (verdict (reconciled recognized_by_flux repository) ≡ ok true) ↔ (
    (recognized_by_flux repository ≡ true)
    × IsReadyNow (conditions_of repository)
    × IsCurrent repository)
reconciled_iff_example = reconciled_iff recognized_by_flux repository
