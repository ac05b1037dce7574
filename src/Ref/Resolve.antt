-- ===== src/Ref/Resolve.antt =====
-- Resolving references: the entry points of internal/ref/resolve.go, with https.go and stub.go. The
-- client of net/http is a parameter.
pub mod Pinned
use cube_idp.Base.{
  ℕ, not, Option, List, Result, ◌>>=◌, ◌>>◌, or_error, eqb, if◌then◌else◌, Text, ok, err,
}
use cube_idp.Ref.Grammar.{
  Scheme, scheme_local, scheme_https, scheme_git, scheme_oci, scheme_s3, ParsedRef, RefError,
  fetch_failed, mode_mismatch, mode_tree, mode_file, not_implemented, parse,
}
use cube_idp.Ref.Digest.{file_digest}
use cube_idp.Ref.Local.{Os, ResolvedTree, ResolvedFile, local_tree, local_file}

-- What the server answers: a status, and the body, whose reading can fail.
pub record Response : Type 0 where
  pub status_code : ℕ
  pub body : Option (List ℕ)

-- http.NewRequestWithContext and client.Do, with their errors as `none`.
pub record Client : Type 0 where
  pub new_request : (url : Text) → Option (Unit {0})
  pub do_request : (url : Text) → Option Response

-- The back ends of stub.go, which this build does not carry.
pub git_tree : ParsedRef → Result RefError ResolvedTree
git_tree p = err (not_implemented scheme_git p.ref)

pub git_file : ParsedRef → Result RefError ResolvedFile
git_file p = err (not_implemented scheme_git p.ref)

pub oci_tree : ParsedRef → Result RefError ResolvedTree
oci_tree p = err (not_implemented scheme_oci p.ref)

pub oci_file : ParsedRef → Result RefError ResolvedFile
oci_file p = err (not_implemented scheme_oci p.ref)

pub s3_tree : ParsedRef → Result RefError ResolvedTree
s3_tree p = err (not_implemented scheme_s3 p.ref)

pub s3_file : ParsedRef → Result RefError ResolvedFile
s3_file p = err (not_implemented scheme_s3 p.ref)

module _ (os : Os) (client : Client) where
  pub https_tree : ParsedRef → Result RefError ResolvedTree
  https_tree p = err (mode_mismatch p.ref mode_tree mode_file)

  -- The body of an answer.
  pub read_response : ParsedRef → Response → Result RefError ResolvedFile
  read_response p resp =
      if not (eqb resp.status_code 200)
      then err (fetch_failed p.ref)
      else (or_error (fetch_failed p.ref) resp.body >>= λ data'. ok (record {
        content = data';
        pin = record { ref = p.ref; source = p.location; digest = file_digest os.sha256 data' };
      }))

  pub fetch_https : ParsedRef → Result RefError ResolvedFile
  unfolding read_response
  fetch_https p =
      or_error (fetch_failed p.ref) (client.new_request p.location)
      >> (or_error (fetch_failed p.ref) (client.do_request p.location) >>= λ resp.
          read_response p resp)

  -- backendFor, by the scheme of the reference.
  pub backend_tree : Scheme → ParsedRef → Result RefError ResolvedTree
  unfolding https_tree git_tree oci_tree s3_tree
  backend_tree scheme_local p = local_tree os p
  backend_tree scheme_https p = https_tree p
  backend_tree scheme_git p = git_tree p
  backend_tree scheme_oci p = oci_tree p
  backend_tree scheme_s3 p = s3_tree p

  pub backend_file : Scheme → ParsedRef → Result RefError ResolvedFile
  unfolding fetch_https git_file oci_file s3_file
  backend_file scheme_local p = local_file os p
  backend_file scheme_https p = fetch_https p
  backend_file scheme_git p = git_file p
  backend_file scheme_oci p = oci_file p
  backend_file scheme_s3 p = s3_file p

  unfoldable pub resolve_tree : (ref : Text) → Result RefError ResolvedTree
  unfolding backend_tree
  resolve_tree ref = parse ref >>= λ p. backend_tree p.scheme p

  unfoldable pub resolve_file : (ref : Text) → Result RefError ResolvedFile
  unfolding backend_file
  resolve_file ref = parse ref >>= λ p. backend_file p.scheme p
