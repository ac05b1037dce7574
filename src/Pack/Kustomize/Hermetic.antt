-- ===== src/Pack/Kustomize/Hermetic.antt =====
-- Rendering a kustomization is hermetic (internal/pack/kustomize.go).
use cube_idp.Base.{◌≡◌, ◌≢◌, Option, some, List, [], ◌∷◌, ◌++◌, map, Every, Text, txt, ok}
use cube_idp.Base.Document.{Fields}
use cube_idp.Pack.Context.{Context}
use cube_idp.Pack.Source.{Node, Visit, directory, regular}
use cube_idp.Base.WalkDir.Walked.{all_visits}
use cube_idp.Pack.Kustomize.{Kustomization, MemFiles, Sdk, render_kustomize}
use cube_idp.Pack.Kustomize.Contained.{IsContained}

module _ (mem_files : MemFiles) where
  -- The file system in memory after the files of some visits, one after the other.
  pub data Copied : mem_files.MemFs → List (Text × Visit) → mem_files.MemFs → Type 0 where
    copied_nil : {mem : mem_files.MemFs} → Copied mem [] mem
    copied_directory :
        {name : Text} {mem last : mem_files.MemFs} {rest : List (Text × Visit)}
        → Copied mem rest last
        → Copied mem ((name, directory) ∷ rest) last
    copied_file :
        {name data' : Text} {mem next last : mem_files.MemFs} {rest : List (Text × Visit)}
        → mem_files.write_file mem (txt "./" ++ name) data' ≡ some next
        → Copied next rest last
        → Copied mem ((name, regular (some data')) ∷ rest) last

-- The SDK in a world: the network and the real file system, which a build may read.
module _ (mem_files : MemFiles) (unmarshal : Text → Option Kustomization) {World : Type 0}
    (run_in : World → mem_files.MemFs → Option (List (Option Fields))) where
  abbrev pub sdk_in : World → Sdk
  sdk_in world = record { files = mem_files; run = run_in world; unmarshal = unmarshal }

  -- The known behaviour of kustomize with LoadRestrictionsRootOnly: over a file system in memory, it
  -- reads the world only for a remote reference in one of the six fields of a kustomization file.
  pub record ReadsForRemotes : Type 1 where
    pub same :
        (visits : List (Text × Visit)) (mem : mem_files.MemFs)
        → Copied mem_files mem_files.make_fs visits mem
        → Every (λ x. IsContained unmarshal x.0 x.1) visits
        → (world other : World) → run_in world mem ≡ run_in other mem

  -- What a successful build has seen.
  pub record Hermetic (ctx : Context) (pack_name : Text) (fsys : Node) (objs : List Fields)
      : Type 0 where
    pub mem : mem_files.MemFs
    pub contained : Every (λ x. IsContained unmarshal x.0 x.1) (all_visits fsys (txt "."))
    pub copied : Copied mem_files mem_files.make_fs (all_visits fsys (txt ".")) mem
    pub nonempty : objs ≢ []
    pub built : (world : World) → run_in world mem ≡ some (map some objs)
    pub anywhere : (world : World) → render_kustomize (sdk_in world) ctx pack_name fsys ≡ ok objs
