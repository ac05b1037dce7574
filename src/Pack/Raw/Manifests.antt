-- ===== src/Pack/Raw/Manifests.antt =====
-- Which objects renderRaw of internal/pack/render.go gives.
use cube_idp.Base.{
  append_assoc, append-nil, ◌≡◌, refl, sym, ap, ◌∙◌, ◌≢◌, ◌↔◌, Bool, true, false, not, Option, none,
  some, List, [], ◌∷◌, ◌++◌, arith, false≢true, Every, Result, ◌>>=◌, ◌>>◌, ok_of_bind, ok_is,
  ok≢err, or_error_iff, if◌then◌else◌, Text, ok, err,
}
use cube_idp.Base.Document.{Fields}
use cube_idp.Pack.Errors.{PackError, manifest_parse, context_done}
use cube_idp.Pack.Context.{Context, at_file}
use cube_idp.Pack.Source.{Node, Visit, failed, directory, regular, walk_dir}
use cube_idp.Base.WalkDir.Walked.{all_visits, final, walk_dir_iff}
use cube_idp.Pack.Raw.{
  Stream, eof, broken, document, is_empty_document, decode_from, decode_documents, is_manifest,
  manifests_dir, parse_manifest, read_manifest, visit_manifest, some_objects, render_raw,
}

-- The documents of a stream that are not empty.
abbrev pub kept : Stream → List Fields
kept eof = []
kept broken = []
kept (document doc rest) =
    let more = kept rest in if is_empty_document doc then more else doc ∷ more

-- The stream ends without an error.
abbrev pub Ends : Stream → Type 0
Ends eof = Unit
Ends broken = ⊥
Ends (document doc rest) = Ends rest

decode_from-Ends :
    (docs : List Fields) (stream : Stream)
    → Ends stream
    → decode_from docs stream ≡ some (docs ++ kept stream)
unfolding decode_from
decode_from-Ends docs eof h = ap some (sym (append-nil docs))
decode_from-Ends docs broken h = elim h [ ]
decode_from-Ends docs (document doc rest) h =
    by_test (is_empty_document doc) (decode_from-Ends docs rest h)
      (decode_from-Ends (docs ++ doc ∷ []) rest h)
  where
    by_test :
        (empty : Bool)
        → decode_from docs rest ≡ some (docs ++ kept rest)
        → decode_from (docs ++ doc ∷ []) rest ≡ some ((docs ++ doc ∷ []) ++ kept rest)
        → decode_from (if empty then docs else docs ++ doc ∷ []) rest
          ≡ some (docs ++ (if empty then kept rest else doc ∷ kept rest))
    by_test true skipped added = skipped
    by_test false skipped added = added ∙ ap some (append_assoc docs (doc ∷ []) (kept rest))

decode_from-some :
    (docs : List Fields) (stream : Stream) (out : List Fields)
    → decode_from docs stream ≡ some out
    → Ends stream
unfolding decode_from
decode_from-some docs eof out h = tt
decode_from-some docs broken out h = cc
decode_from-some docs (document doc rest) out h = decode_from-some _ rest out h

-- decodeDocuments succeeds exactly on a stream without an error, and gives its documents that are
-- not empty, in their order.
pub decode_documents_iff :
    (stream : Stream) (docs : List Fields)
    → (decode_documents stream ≡ some docs) ↔ (Ends stream × (docs ≡ kept stream))
unfolding decode_documents
decode_documents_iff stream docs = (
  (λ h.
      let ends = decode_from-some [] stream docs h in
      (ends, ground (arith, h, decode_from-Ends [] stream ends))),
  (λ h. decode_from-Ends [] stream h.0 ∙ ap some (sym h.1)),
)

pub some_objects_iff :
    (pack_name : Text) (objs out : List Fields)
    → (some_objects pack_name objs ≡ ok out) ↔ ((out ≡ objs) × (out ≢ []))
unfolding some_objects
some_objects_iff pack_name [] out = ((λ h. cc), (λ h. absurd (h.1 h.0)))
some_objects_iff pack_name (o ∷ objs) out =
    ((λ h. (sym (ok_is h), (λ e. cc))), (λ h. ap ok (sym h.0)))

module _ (decoder : Text → Stream) where
  abbrev pub Decodes : Option Text → Type 0
  Decodes none = ⊥
  Decodes (some data') = Ends (decoder data')

  abbrev pub objects_of : Option Text → List Fields
  objects_of none = []
  objects_of (some data') = kept (decoder data')

  -- What a visit adds to the objects.
  abbrev pub given : Text → Visit → List Fields
  given name failed = []
  given name directory = []
  given name (regular content) = if is_manifest name then objects_of content else []

  abbrev pub objects_in : List (Text × Visit) → List Fields
  objects_in [] = []
  objects_in ((name, v) ∷ rest) = given name v ++ objects_in rest

  read_manifest_iff :
      (name : Text) (content : Option Text) (parsed : List Fields)
      → (read_manifest decoder name content ≡ ok parsed)
        ↔ (Decodes content × (parsed ≡ objects_of content))
  unfolding read_manifest parse_manifest
  read_manifest_iff name none parsed = ((λ h. cc), (λ h. elim h.0 [ ]))
  read_manifest_iff name (some data') parsed =
      let r = or_error_iff (manifest_parse name) (decode_documents (decoder data')) parsed in
      let q = decode_documents_iff (decoder data') parsed in
      ((λ h. q.0 (r.0 h)), (λ h. r.1 (q.1 h)))

  module _ (ctx : Context) where
    -- Everything can be listed; a manifest is met while the context is live, and decodes.
    abbrev pub IsReadable : Text → Visit → Type 0
    IsReadable name failed = ⊥
    IsReadable name directory = Unit
    IsReadable name (regular content) =
        is_manifest name ≡ true → (ctx (at_file name) ≡ false) × Decodes content

    visit_manifest_iff :
        (name : Text) (v : Visit) (s s' : List Fields)
        → (visit_manifest decoder ctx name v s ≡ ok s')
          ↔ (IsReadable name v × (s' ≡ s ++ given name v))
    unfolding visit_manifest
    visit_manifest_iff name failed s s' = ((λ h. cc), (λ h. elim h.0 [ ]))
    visit_manifest_iff name directory s s' =
        ((λ h. (tt, sym (ok_is h) ∙ sym (append-nil s))), (λ h. ap ok (sym (h.1 ∙ append-nil s))))
    visit_manifest_iff name (regular content) s s' =
        by_test (is_manifest name) (ctx (at_file name)) (read_manifest decoder name content)
          (read_manifest_iff name content)
      where
        by_test :
            (yes cancelled : Bool) (r : Result PackError (List Fields))
            → ((parsed : List Fields)
                → (r ≡ ok parsed) ↔ (Decodes content × (parsed ≡ objects_of content)))
            → ((if not yes
                  then ok s
                  else (if cancelled then err context_done else ok tt)
                    >> (r >>= λ parsed. ok (s ++ parsed)))
                ≡ ok s')
              ↔ ((yes ≡ true → (cancelled ≡ false) × Decodes content)
                  × (s' ≡ s ++ (if yes then objects_of content else [])))
        by_test false cancelled r read = (
          (λ h. ((λ e. cc), sym (ok_is h) ∙ sym (append-nil s))),
          (λ h. ap ok (sym (h.1 ∙ append-nil s))),
        )
        by_test true true r read = ((λ h. cc), (λ h. absurd (false≢true (sym (h.0 refl).0))))
        by_test true false (err e) read =
            ((λ h. cc), (λ h. absurd (ok≢err (sym ((read _).1 ((h.0 refl).1, refl))))))
        by_test true false (ok parsed) read = (
          (λ h.
              let (decodes, e) = (read parsed).0 refl in
              ((λ _. (refl, decodes)), sym (ok_is h) ∙ ap (λ l. s ++ l) e)),
          (λ h.
              let e = ok_is ((read (objects_of content)).1 ((h.0 refl).1, refl)) in
              ap ok (ap (λ l. s ++ l) e ∙ sym h.1)),
        )

    final-objects_in :
        (l : List (Text × Visit)) (s : List Fields)
        → final
            (visit_manifest decoder ctx)
            IsReadable
            (λ name v t. t ++ given name v)
            visit_manifest_iff
            l
            s
          ≡ s ++ objects_in l
    final-objects_in [] s = sym (append-nil s)
    final-objects_in ((name, v) ∷ rest) s =
        final-objects_in rest (s ++ given name v) ∙ append_assoc s (given name v) (objects_in rest)

    -- A raw pack renders exactly if its manifests directory and all directories below can be
    -- listed, every manifest file in it can be read and its stream has no error, the context is
    -- live at each of them, and there is an object. The objects are then the documents of the
    -- manifest files that are not empty, file by file in the order of the walk.
    pub render_raw_iff :
        (pack_name : Text) (fsys : Node) (objs : List Fields)
        → (render_raw decoder ctx pack_name fsys ≡ ok objs) ↔ (
            Every (λ x. IsReadable x.0 x.1) (all_visits fsys manifests_dir)
            × (objs ≡ objects_in (all_visits fsys manifests_dir))
            × (objs ≢ []))
    unfolding render_raw
    render_raw_iff pack_name fsys objs =
        let walk =
          walk_dir_iff (visit_manifest decoder ctx) IsReadable (λ name v s. s ++ given name v)
            visit_manifest_iff fsys manifests_dir [] in
        let all = final-objects_in (all_visits fsys manifests_dir) [] in
        (
          (λ h.
              let (found, walked, rest) =
                ok_of_bind (walk_dir (visit_manifest decoder ctx) fsys manifests_dir [])
                  (some_objects pack_name) h in
              let (readable, e) = (walk found).0 walked in
              let (same, nonempty) = (some_objects_iff pack_name found objs).0 rest in
              (readable, same ∙ e ∙ all, nonempty)),
          (λ h.
              rw ((walk objs).1 (h.0, h.1 ∙ sym all))
                ((some_objects_iff pack_name objs objs).1 (refl, h.2))),
        )
