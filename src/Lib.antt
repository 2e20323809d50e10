-- ===== src/Lib.antt =====
-- A model of the Atom operator, a Kubernetes operator that serves INSPIRE Atom download services.
-- An `Atom` resource is admitted by a validating webhook; the controller then maps the resource and
-- its OwnerInfo to the configuration of the Atom generator, stores that in a config map, and makes
-- a deployment, a service, Traefik middlewares, an ingress route and a disruption budget.
--
-- Files, and the code they are about:
--   Prelude     the names of the library and small lemmas. Result: what a Go call ends in, a
--               result, an `error` or a panic. Dict: maps with text keys. Int: integers.
--   Text        the functions of Go's `strings` and `strconv`, with their laws.
--   Memory      values with pointers and slices, each with the address of what it refers to. Copies
--               and Deep: what a deep copy is, and one rule for each way to make one.
--   Api.Model   structures of Kubernetes and of smooth-operator, with the fields that are read.
--   Api.V3      api/v3/atom_types.go: the types, `GetDownloadLinks` (get_download_links),
--               `GetBlobPrefix` (get_blob_prefix), `GetBlobName` (get_blob_name). Blob: their law.
--   Api.V3.Validation, OwnerCheck, Admission
--               api/v3/atom_validation.go: `validateDatasetFeeds`, `ValidateAtom`;
--               `ValidateOwnerInfo`, `validateMetadataTemplates`; `ValidateCreate`,
--               `ValidateUpdate`. A function that appends to `allErrs` returns what it appends.
--               Feeds and the two Laws describe when each finds no error, Paths where errors are
--               reported.
--   Api.V2beta1 api/v2beta1/atom_types.go and types.go. Context: what the conversions call. ToV3:
--               `ToV3` (to_v3), `ConvertTo`, `createBaseURL`; FromV3: `ConvertFrom` (convert_from);
--               an object is written to by returning it. Conversion: Laws, Errors, Datasets,
--               Floats, when a conversion returns, and what comes back.
--   Api.V3.InMemory, DeepCopy and Api.V2beta1.InMemory, DeepCopy
--               zz_generated.deepcopy.go of both packages: the types with their pointers, and
--               `DeepCopyInto` (link_deep_copy_into for a Link), `DeepCopy` (link_deep_copy),
--               `DeepCopyObject`. Fields and Shapes: what the types consist of. Laws: what the
--               copies hold.
--   Generator   internal/controller/generator/mapper.go. Feeds: the structures of the generator.
--               Links, Entries, Mapper: the functions, by their names in the code. Templates,
--               Safety, Admitted, Converted, Ids, Categories, Downloads, Quotes: their properties.
--   Controller  internal/controller. Labels, Objects: constants and Kubernetes objects. Groups:
--               `getDownloadLinkGroups`. Middleware, Ingress, Resources, Deployment: the files of
--               these names and service.go, poddisruptionbudget.go, atom_generator_configmap.go.
--               Ingress.Routes, Downloads and Names: how each feed and each download is routed.
--               Ttl: `ttlExpired`. Run, Cluster, Kept: calls that change the cluster. Reconcile:
--               `Reconcile` and `createOrUpdateAllForAtom`; Steps, Present and Routes: what is in
--               the cluster afterwards; Errors: what a failed call reports; Ends and Calm, with the
--               modules of those names: how calls can end, and panics; Served: a call that the API
--               server serves; Frame: what is left alone; Runs: any number of calls. Setup:
--               `SetupWithManager`. Steady: a second call of a mutate function.
--   Webhook     internal/webhook/v3/atom_webhook.go. Laws: which objects are admitted.
--   Cmd         cmd/main.go. Flags: the flags and their test. Process: the calls of
--               controller-runtime as a list. Start: `main` (main); Plan and Laws: what it calls.
--   Tests       a small resource and cluster, and the theorems applied to them.
--
-- A nil pointer that is dereferenced and a slice expression out of range are panics of `Result`.
-- The order of a map iteration is a parameter: a function that lists the map's pairs. Durations
-- wrap around in 64 bits; instants, counters and indices are unbounded. The decimal digits
-- (Text.digits) take one more than the number as fuel, more than it has digits; every other loop
-- goes through a list.
--
-- Parameters stand for code outside the repository: `net/url` (UrlOps), mustache, the texts of a
-- bounding box and of a time (Env), the checks of smooth-operator and `client.Get` (Checks,
-- Client), `strconv`, `time` and the URL parser of the conversion (Conversions), labels, owner
-- references, the hash suffix, uptime annotations and YAML (Reconciler), the API server with
-- `CreateOrUpdate` and the status updates (Cluster), the parser of the flags, the environment and
-- the answers of controller-runtime (Platform), and the copies of imported structures (Imports).
-- Hypotheses about them: that the templates of an OwnerInfo render (Templates.Renders), that a
-- `CreateOrUpdate` with no error leaves the object in the cluster and no call removes one
-- (Steps.Keeps), that `CreateOrUpdate` panics only where the mutate function does
-- (Reconcile.Calm.Relays) and the others do not (IsCalm), that a `CreateOrUpdate` whose mutate
-- function succeeds does so, that the objects it meets are in the namespace of the resource and not
-- controlled by another (Serves, Manageable), that what sets the kind and the controller of such
-- objects, the hash and YAML succeed (CallsEnd), that labels, kind and controller that are set
-- again stay as they are (IsSteady), that `strconv` reads back the shortest digits of a float32
-- (Floats.IsExact), that an object stays in its namespace (KeepsNamespace), and that imported
-- copies are deep (DeepImports).
--
-- Not modelled: the registration of types in schemes, the set-up of the logger, the embedded CRDs,
-- logging, and the stack that an error carries.
pub mod Prelude
pub mod Text
pub mod Memory
pub mod Api
pub mod Generator
pub mod Controller
pub mod Webhook
pub mod Cmd
mod Tests
