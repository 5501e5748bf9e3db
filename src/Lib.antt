-- ===== src/Lib.antt =====
-- Verification of the Supabase operator for Kubernetes.
--
-- The operator turns custom resources into Kubernetes objects. A reconciler reads a custom resource,
-- resolves the database that it refers to, builds the objects that it wants (internal/defaults) with
-- the helpers of internal/helper, ensures each of them in the cluster, and writes the outcome to
-- the status (internal/reconciler). The development follows this layering.
--
-- Go, and the libraries of Kubernetes:
--   Go.Outcome, Go.Pure   results (T, error) and panics; wrapped errors
--   Go.Exec               calls on a cluster `W`: what was written before an error stays written
--   Go.Exec.Keeps, Go.Exec.Inversion   rules for predicates that calls keep, and for calls that return
--   Go.GoMap, Go.Strconv, Go.Strings   maps, nil or made, as functions of the key; strconv.Itoa;
--                         sort.Strings, strings.Join and strings.TrimRight
--   Kube.*                the objects, as records of the fields that the code reads or writes. Fields
--                         that it only copies are texts (`Opaque`, `rest`). Kube.Client is
--                         controller-runtime's client over an abstract cluster and the machinery of
--                         apimachinery and client-go, with RetryOnConflict as what it may do;
--                         Kube.Condition is apimachinery's conditions, with laws from their
--                         documentation.
--
-- The operator:
--   Reconciler.Ensure     internal/reconciler/ensure.go: EnsureResource (ensure_resource) with its
--                         steps, DeleteResourceIfExists. Laws holds its contract, the relation
--                         Ensured; Convergence is about a second call.
--   Reconciler.Mutate.*   internal/reconciler/mutate.go, a module for each kind of object, with what
--                         the mutations take and keep in its children; Reconciler.StringMap is
--                         mergeStringMaps
--   Reconciler.Converge   both together: EnsureResource with a mutation, called again
--   Reconciler.Status     internal/reconciler/status.go
--   Database              internal/database/main.go: ResolveRef
--   Api.*                 api/v1alpha1: Migration, Project, SingleDatabase, the components and the
--                         types that they share
--   Helper.*              internal/helper: env.go, with MergeEnvVars in Env.Merge and the hashes in
--                         Env.Hash, name.go, clusterdomain.go, overlay.go and random.go
--   Defaults.*            internal/defaults: the objects of a Migration, a Project, a SingleDatabase and,
--                         in Defaults.Component, those of each component, over the Context of
--                         context.go; Shapes holds the literals that the packages repeat
--   Controller.Common     what the reconcilers share, with the predicates that it keeps in Effects
--   Controller.Migration  internal/controller/migration/controller.go; Applied, Success and Ended say what
--                         a run writes, by the state of the Migration and of its Job
--   Controller.Project    internal/controller/project/controller.go: the steps of a run, in Sync the Jobs
--                         that write settings to the database, and in Run the composition of the steps;
--                         Pending, Ready and Success say what a run has done
--   Controller.SingleDatabase  internal/controller/singledatabase/controller.go; Success says what a run
--                         has published, and what a reference to it resolves to
--   Controller.Component  internal/controller/component: controller.go, with its laws in Laws and Needs,
--                         in Rollout the readiness tests of resources.go, and in Stamp its StampInputs,
--                         which writes a hash of what a pod reads to its annotations
--   Controller.Component.Run    Ensure, the methods reconcileService, reconcileDeployment,
--                         reconcileStatefulSet and reconcilePVC, which the packages repeat, and the
--                         order of a run; Ended, Guards and Suspended are rules for whole runs
--   Controller.Component.Plain  internal/controller/auth, rest, meta and realtime, one reconciler over
--                         the record Parts; Finished and Suspended say what a run has done
--   Controller.Storage, Controller.Studio, Controller.EdgeRuntime, Controller.Supavisor
--                         the packages of these names under internal/controller
--   Controller.Envoy      internal/controller/envoy; Turns and Gathered say what its loop over the other
--                         components gathers, Finished what a run has done
--   Controller.Analytics  internal/controller/analytics; Shared says what its search for conflicts
--                         finds, Alone what a run has done
--   Tests                 the theorems at concrete clusters and objects
--
-- Parameters. The cluster with all that acts on it is the type `W`: a client's reads give what it
-- holds at the moment of the call, and its writes give the next cluster. DeepEqual, SetControllerReference,
-- IsControlledBy, JSON, the strategic merge patch, SHA-256, url.URL, text/template, the clock and the
-- random source are arguments of the definitions that use them, as is the order in which Go visits the
-- keys of a map. A Reconciler record of a Migration, a Project or a SingleDatabase also takes the
-- builders of its objects, which Defaults defines, except that of the JWT Secret. A Cluster record
-- holds what the reconcilers of the components share.
--
-- Bounds. Recursion is structural, except that itoa runs on twenty digits, which hold every number of
-- 64 bits. Counts are natural numbers, since the API server admits no negative ones. Logging is left
-- out.
--
-- Names are ASCII texts, so that a byte of a name is a character.
--
-- Not modelled: Vector and its objects, the signing of tokens and the making of keys, SetClusterDomain,
-- watches and the mapping of events to requests, the manager, deep copies (values are immutable here),
-- charts and manifests.
pub mod Prelude
pub mod Go
pub mod Kube
pub mod Reconciler
pub mod Api
pub mod Database
pub mod Helper
pub mod Defaults
pub mod Controller
pub mod Tests
