-- ===== src/Pack/Render/Network.antt =====
-- A small kustomize for internal/pack/kustomize.go, which fetches what a remote reference names from
-- the world.
use cube_idp.Base.{
  ◌≡◌, refl, sym, ap, ◌∙◌, Bool, true, false, ◌&&◌, ◌||◌, Option, some, List, [], ◌∷◌, subst, Every,
  drop, some_is, false_of_not, Text, txt,
}
use cube_idp.Base.Document.{Fields}
use cube_idp.Pack.Source.{Visit}
use cube_idp.Pack.Kustomize.{Kustomization, MemFiles, is_kustomization, is_remote_ref}
use cube_idp.Pack.Kustomize.Remote.{is_remote_ref_iff}
use cube_idp.Pack.Kustomize.Contained.{is_kustomization_iff, HasLocalRefs, IsContained}
use cube_idp.Pack.Kustomize.Hermetic.{
  Copied, copied_nil, copied_directory, copied_file, ReadsForRemotes,
}
use cube_idp.Pack.Render.Samples.{object, service, sdk}

-- A file system that notes whether a kustomization file with a remote reference was written, and
-- the names.
abbrev pub noting : MemFiles
noting = record {
  MemFs = Bool × List Text;
  make_fs = (false, []);
  write_file = λ mem name data'.
      some (mem.0 || (is_kustomization (drop 2 name) && is_remote_ref data'), name ∷ mem.1);
}

abbrev services : List Text → List (Option Fields)
services [] = []
services (name ∷ names) = some service ∷ services names

-- What the world has under a remote reference.
abbrev pub fetching : (world : Text) → Bool × List Text → Option (List (Option Fields))
fetching world (true, names) = some (some (object (txt "v1") world (txt "net")) ∷ [])
fetching world (false, names) = some (services names)

not_remote :
    (data' : Text)
    → ((k : Kustomization) × (sdk.unmarshal data' ≡ some k) × HasLocalRefs k)
    → is_remote_ref data' ≡ false
not_remote data' (k, e, refs) =
    false_of_not (is_remote_ref data')
      (λ h. (subst HasLocalRefs (some_is (sym e)) refs).resources.0 ((is_remote_ref_iff data').0 h))

noting_clean :
    (visits : List (Text × Visit)) (mem last : Bool × List Text)
    → Copied noting mem visits last
    → mem.0 ≡ false
    → Every (λ x. IsContained sdk.unmarshal x.0 x.1) visits
    → last.0 ≡ false
noting_clean [] mem _ copied_nil h contained = h
noting_clean (_ ∷ visits) mem last (copied_directory c) h contained =
    noting_clean visits mem last c h contained.1
noting_clean (_ ∷ visits) mem last (copied_file {name = name} {data' = data'} {next = next} e c) h
      contained =
    noting_clean visits next last c
      (sym (ap (λ x. x.0) (some_is e))
        ∙ unnoted (is_kustomization name) (λ e. contained.0 ((is_kustomization_iff name).0 e)))
      contained.1
  where
    unnoted :
        (marked : Bool)
        → (marked ≡ true → (k : Kustomization) × (sdk.unmarshal data' ≡ some k) × HasLocalRefs k)
        → (mem.0 || (marked && is_remote_ref data')) ≡ false
    unnoted true local = let e = not_remote data' (local refl) in rw (h, e) refl
    unnoted false local = rw h refl

fetching-clean :
    (mem : Bool × List Text)
    → mem.0 ≡ false
    → (world other : Text) → fetching world mem ≡ fetching other mem
fetching-clean (true, names) h world other = cc
fetching-clean (false, names) h world other = refl

pub fetching-ReadsForRemotes : ReadsForRemotes noting sdk.unmarshal fetching
fetching-ReadsForRemotes = record {
  same = λ visits mem copied contained world other.
      fetching-clean mem (noting_clean visits (false, []) mem copied refl contained) world other;
}
