-- ===== src/Pack/Values/Tests.antt =====
-- Values for internal/pack/values.go.
use cube_idp.Base.{◌≡◌, refl, true, none, some, txt, ◌==◌, ok, err}
use cube_idp.Base.Document.{
  pos, negsuc, null, bool, int, float, str, arr, obj, nil, cons, Fields, end, field, get, set,
  remove,
}
use cube_idp.Pack.Errors.{values_document}
use cube_idp.Pack.Raw.{eof, document, decode_documents}
use cube_idp.Pack.Values.{Decoders, merge_patch, normalize_float, base_values}
use cube_idp.Pack.Values.Merge.{rfc_merge, merge_patch-rfc}

abbrev base : Fields
base =
    field (txt "a") (obj (field (txt "x") (int (pos 1)) (field (txt "y") (int (pos 2)) end)))
      (field (txt "b") (str (txt "old")) end)

abbrev patch : Fields
patch =
    field (txt "a") (obj (field (txt "x") null (field (txt "z") (bool true) end)))
      (field (txt "b") null (field (txt "c") (arr (cons null nil)) end))

merged :
    merge_patch base patch
    ≡ field
        (txt "a")
        (obj (field (txt "y") (int (pos 2)) (field (txt "z") (bool true) end)))
        (field (txt "c") (arr (cons null nil)) end)
unfolding merge_patch get set remove ◌==◌
merged = refl

-- 3.0 becomes an integer, 1.5 does not, and -4 is whole at any scale.
numbers :
    (normalize_float (record { numerator = pos 3; scale = 0 }) ≡ int (pos 3))
    × (normalize_float (record { numerator = pos 3; scale = 1 })
        ≡ float (record { numerator = pos 3; scale = 1 }))
    × (normalize_float (record { numerator = negsuc 7; scale = 1 }) ≡ int (negsuc 3))
unfolding normalize_float
numbers = (refl, refl, refl)

abbrev decoders : Decoders
decoders = record {
  resolve = λ ref. ok ref;
  decoder = λ data'. document base (document end (document base eof));
  unmarshal = λ raw. none;
}

two_documents :
    base_values decoders (txt "./v.yaml") ≡ err (values_document (txt "./v.yaml") (some 2))
unfolding base_values decode_documents ◌==◌
two_documents = refl

merge_patch-rfc_example : obj (merge_patch base patch) ≡ rfc_merge (obj patch) (obj base)
merge_patch-rfc_example = merge_patch-rfc base patch
