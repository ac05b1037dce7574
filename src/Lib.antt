-- ===== src/Lib.antt =====
-- A verification library for cube-idp, a command line that turns a configuration document into a
-- running platform cube: a cluster, a gitops engine, a trust-fabric gateway with its certificate
-- authority, and a set of packs. The library models the decisions that the program makes between
-- its inputs and its outputs, and proves what makes them correct.
--
-- Parts, and how they interact:
-- - Base: what all parts share. Texts are lists of Unicode code points, and the functions of Go's
--   packages strings, slices and regexp that the program calls are defined on them (Base/Tests,
--   Base/Strings, Base/TextLaws, Base/Searches). Invalid UTF-8 is not modelled. Go maps with string
--   keys are association lists that are read through `find` (Base/Maps). A pair of a value and an
--   error is a `Result` (Base/Outcome). Base/WalkDir is fs.WalkDir over the tree that a file system
--   presents.
-- - Api (api/config/v1alpha1): the configuration document, a record for each struct.
--   Api/Validation, Api/Packs and Api/Prerequisites follow the three validation files, with a
--   function for each rule and each loop; an error is its type, path and value. Api/Defaults follows
--   defaults.go. IsDNS1123Subdomain, time.ParseDuration and the JSON decoder are parameters
--   (Api/Errors).
-- - Pack (internal/pack): Pack/Deps follows deps.go, with a function for each Go function and for
--   each of its loops. An InstanceID is its text. The loop of topoSort runs for the instances that
--   are not placed, a number that falls by one in each round, so that no fuel is made up.
--   Pack/Substitute follows substitute.go: a position in a text is what is left of it, and the loop
--   of expand passes over the places of a reference by a counter. Pack/Values follows values.go but
--   for resolveValues; the decoders of YAML and JSON and the resolver of a reference are parameters.
--   Pack/Namespace follows namespace.go. Pack/Source is an injected fs.FS, as the tree that it
--   presents, with fs.WalkDir. Pack/Load follows pack.go and resolveValues over a record of the CUE
--   calls, Pack/Chart and Pack/Helm helm.go, Pack/Kustomize kustomize.go over a record of the SDK
--   calls, whose build may read a world that Pack/Kustomize/Hermetic varies, Pack/External
--   external.go, Pack/Raw and Pack/Render render.go. A context is its answer at each place that asks
--   (Pack/Context). The sequence of the documents that a decoder returns for a text is finite, so
--   that the loop of decodeDocuments needs no fuel.
-- - Gateway (internal/gateway): Gateway/Corefile follows corefile.go. The Corefile is split at its
--   newlines and joined again, as there; Site says where a block can stand.
-- - Bootstrap (internal/bootstrap): Bootstrap/Client follows apply.go over a record of the
--   client-go calls, whose state is a type parameter and stands for the API server, the discovery
--   cache, the context and the clock. A call is a function on that state; `then` is the early return
--   on an error. The record has as its law what wait.PollUntilContextCancel may do, for the waits in
--   Reconcile (reconcile.go) and Ready (wait.go), which share Polling; the bound on the rounds is
--   the context's, so that no fuel is made up. Failures follows errors.go, Inventory inventory.go,
--   Install install.go and unit.go. json.MarshalIndent is a parameter.
-- - Judgment (internal/engine/flux/reconciled.go, internal/gateway/predicates.go): when a declared
--   object counts as reconciled. The two files have one text but for the kinds that they recognize,
--   which is the parameter `recognized`. Bootstrap takes such a judgment as a parameter.
-- - Ca (internal/ca): Ca/Ledger follows ledger.go, with the YAML decoder and encoder as
--   parameters. Ca/Material follows ca.go and parseMaterial, Ca/Mint mint.go, Ca/Ensure Ensure and
--   secrets.go. The packages crypto/*, encoding/pem and encoding/base64 are records of their calls,
--   with what their documentation says of them in IsLawful and IsBase64; a call that draws entropy
--   returns what is left of it. Ca/Toy is an instance that has these laws.
-- - Config (internal/config): Config/Names follows names.go; what rand.IntN returns is an
--   argument.
-- - Ref (internal/ref): Ref/Grammar follows the parser of resolve.go, Ref/Digest its pins and
--   digests, Ref/Resolve its entry points with https.go and stub.go, Ref/Local local.go, and
--   Ref/Snapshot the in-memory file system of tree.go, whose map of stored paths is an association
--   list. The operating system is a record of what its calls answer over a disk that does not
--   change, and the HTTP client a record of two calls. sha256 is a parameter. Ref/Snapshot/Opened
--   counts the calls of ReadDir on an open directory.
--
-- Not modelled: the command line (internal/cli, cmd), loading and scaffolding of the document (the
-- rest of internal/config), the cluster drivers (internal/cluster), the rest of internal/engine,
-- the objects that internal/gateway builds, client construction (internal/kube), trust stores and
-- artifact paths (the rest of internal/ca), open files of internal/ref, the scaffolds of
-- internal/pack, message texts, and generated code. Calls of the Kubernetes, YAML, JSON and CUE
-- libraries are parameters where the modelled code makes them.
pub mod Base
pub mod Api
pub mod Pack
pub mod Bootstrap
pub mod Ca
pub mod Ref
pub mod Judgment
pub mod Config
pub mod Gateway
