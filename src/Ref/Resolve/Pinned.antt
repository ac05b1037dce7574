-- ===== src/Ref/Resolve/Pinned.antt =====
-- What a resolution pins (internal/ref/resolve.go).
use cube_idp.Base.{
  ℕ, ◌≡◌, refl, sym, ap, ◌∙◌, Bool, true, false, not, some, List, arith, subst, ◌>>=◌, ok_of_bind,
  ok_is, or_error, or_error_iff, eqb, if◌then◌else◌, Text, ok, err,
}
use cube_idp.Ref.Grammar.{
  Scheme, scheme_local, scheme_https, scheme_git, scheme_oci, scheme_s3, ParsedRef, fetch_failed,
  parse,
}
use cube_idp.Ref.Digest.{file_digest, tree_digest}
use cube_idp.Ref.Local.{Os, ResolvedTree, ResolvedFile, kind_dir, walk_local_tree, local_file}
use cube_idp.Ref.Local.Read.{local_file-ok, local_tree-ok}
use cube_idp.Ref.Resolve.{
  https_tree, Response, Client, read_response, fetch_https, backend_tree, backend_file,
  resolve_tree, resolve_file,
}

module _ (os : Os) (client : Client) where
  -- The pin of a resolved file: the reference as it was written, where the content was read, and
  -- the digest of the content.
  pub data FilePinned (ref : Text) : ResolvedFile → Type 0 where
    from_disk :
        {p : ParsedRef} {abs : Text} {data' : List ℕ}
        → parse ref ≡ ok p
        → p.scheme ≡ scheme_local
        → os.abs p.location ≡ some abs
        → os.read_file abs ≡ some data'
        → FilePinned ref (record {
          content = data';
          pin = record { ref = p.ref; source = abs; digest = file_digest os.sha256 data' };
        })
    from_server :
        {p : ParsedRef} {data' : List ℕ}
        → parse ref ≡ ok p
        → p.scheme ≡ scheme_https
        → client.do_request p.location ≡ some (record { status_code = 200; body = some data' })
        → FilePinned ref (record {
          content = data';
          pin = record { ref = p.ref; source = p.location; digest = file_digest os.sha256 data' };
        })

  local_file-FilePinned :
      (ref : Text) (p : ParsedRef) (r : ResolvedFile)
      → parse ref ≡ ok p
      → p.scheme ≡ scheme_local
      → local_file os p ≡ ok r
      → FilePinned ref r
  local_file-FilePinned ref p r parsed s h =
      let (abs, data', a, d, same) = local_file-ok os p r h in
      subst (FilePinned ref) (sym same) (from_disk parsed s a d)

  fetch_https-FilePinned :
      (ref : Text) (p : ParsedRef) (r : ResolvedFile)
      → parse ref ≡ ok p
      → p.scheme ≡ scheme_https
      → fetch_https os client p ≡ ok r
      → FilePinned ref r
  unfolding fetch_https read_response
  fetch_https-FilePinned ref p r parsed s h =
      let (u, e, h₁) =
        ok_of_bind (or_error (fetch_failed p.ref) (client.new_request p.location)) _ h in
      let (resp, d, h₂) =
        ok_of_bind (or_error (fetch_failed p.ref) (client.do_request p.location)) _ h₁ in
      let answer = (or_error_iff _ (client.do_request p.location) resp).0 d in
      by_response resp answer (eqb resp.status_code 200) refl h₂
    where
      by_response :
          (resp : Response)
          → client.do_request p.location ≡ some resp
          → (good : Bool) → eqb resp.status_code 200 ≡ good
          → (if not good
              then err (fetch_failed p.ref)
              else (or_error (fetch_failed p.ref) resp.body >>= λ data'. ok (record {
                content = data';
                pin = record {
                  ref = p.ref;
                  source = p.location;
                  digest = file_digest os.sha256 data';
                };
              })))
            ≡ ok r
          → FilePinned ref r
      by_response resp answer false e h = cc
      by_response resp answer true e h =
          let (data', b, last) = ok_of_bind (or_error (fetch_failed p.ref) resp.body) _ h in
          let body = (or_error_iff (fetch_failed p.ref) resp.body data').0 b in
          let status : resp.status_code ≡ 200 = ground (arith, e) in
          subst (FilePinned ref) (ok_is last) (
            from_server parsed s
              (answer ∙ ap some (λ i. record { status_code = status i; body = body i })))

  -- A reference that resolves to a file is a local path, whose file was read, or an https URL,
  -- whose server answered 200 with a body that could be read; the content is what was read, and
  -- the pin has its digest. No other reference resolves to a file.
  pub resolve_file-FilePinned :
      (ref : Text) (r : ResolvedFile) → resolve_file os client ref ≡ ok r → FilePinned ref r
  unfolding resolve_file backend_file
  resolve_file-FilePinned ref r h =
      let (p, parsed, h₁) = ok_of_bind (parse ref) _ h in by_scheme p parsed p.scheme refl h₁
    where
      by_scheme :
          (p : ParsedRef)
          → parse ref ≡ ok p
          → (s : Scheme) → p.scheme ≡ s
          → backend_file os client s p ≡ ok r
          → FilePinned ref r
      by_scheme p parsed scheme_local s h = local_file-FilePinned ref p r parsed s h
      by_scheme p parsed scheme_https s h = fetch_https-FilePinned ref p r parsed s h
      by_scheme p parsed scheme_git s h = cc
      by_scheme p parsed scheme_oci s h = cc
      by_scheme p parsed scheme_s3 s h = cc

  -- What a tree that was resolved comes from.
  pub record TreePinned (ref : Text) (r : ResolvedTree) : Type 0 where
    pub p : ParsedRef
    pub abs : Text
    pub parsed : parse ref ≡ ok p
    pub is_local : p.scheme ≡ scheme_local
    pub absolute : os.abs p.location ≡ some abs
    pub is_dir : os.stat abs ≡ some kind_dir
    pub walked : walk_local_tree os p abs ≡ ok r.files
    pub pin : r.pin ≡ record { ref = p.ref; source = abs; digest = tree_digest os.sha256 r.files }

  -- A reference that resolves to a tree is a local path to a directory; its files are those of the
  -- walk, and the pin has the digest of just these files. No other reference resolves to a tree.
  pub resolve_tree-TreePinned :
      (ref : Text) (r : ResolvedTree) → resolve_tree os client ref ≡ ok r → TreePinned ref r
  unfolding resolve_tree backend_tree https_tree
  resolve_tree-TreePinned ref r h =
      let (p, parsed, h₁) = ok_of_bind (parse ref) _ h in by_scheme p parsed p.scheme refl h₁
    where
      by_scheme :
          (p : ParsedRef)
          → parse ref ≡ ok p
          → (s : Scheme) → p.scheme ≡ s
          → backend_tree os client s p ≡ ok r
          → TreePinned ref r
      by_scheme p parsed scheme_local s h =
          let (abs, files, a, k, w, same) = local_tree-ok os p r h in
          record {
            p = p;
            abs = abs;
            parsed = parsed;
            is_local = s;
            absolute = a;
            is_dir = k;
            walked = w ∙ ap (λ x. ok x.files) (sym same);
            pin =
                ap (λ x. x.pin) same
                ∙ ap (λ f. record { ref = p.ref; source = abs; digest = tree_digest os.sha256 f })
                    (ap (λ x. x.files) (sym same));
          }
      by_scheme p parsed scheme_https s h = cc
      by_scheme p parsed scheme_git s h = cc
      by_scheme p parsed scheme_oci s h = cc
      by_scheme p parsed scheme_s3 s h = cc
