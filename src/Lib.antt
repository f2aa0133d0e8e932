-- ===== src/Lib.antt =====
-- A verification library for paperless-ngx-operator, a Kubernetes operator that runs Paperless-NGX
-- instances. A reconcile reads one PaperlessInstance, ensures its generated Secrets, applies its
-- storage, its database, its cache and its workload in this order, and reports the outcome in the
-- status of the instance. The builders of the objects are pure; the reconciler calls them and talks to
-- the API server.
--
-- The parts of the program and the modules that model them:
--
-- api/v1alpha1/paperlessinstance_types.go: Api.Types has the types, Api.Defaults the methods that
-- resolve unset fields. A pointer is an Option, an int32 or int64 an integer of Prelude.Int.
-- api/v1alpha1/zz_generated.deepcopy.go: Api.DeepCopy. There a custom resource is a tree of cells with
-- their addresses, and a copy takes new addresses from a counter. Copier has the copies of pointers
-- and slices, Parts, Spec and Instance have DeepCopyInto of each type, Pointers and Instance have
-- DeepCopy and DeepCopyObject, and Fresh, Pointers.New and Instance.Apart what is proved. The
-- other modules have an instance as a value, and the copy `base` of Reconcile is the value itself.
--
-- internal/resources: the builders, a module for each file. Names (names.go, and commonLabels of
-- secret.go), Storage (storage.go), Secrets (secret.go; RandomKey is random_key over a parameter for
-- rand.Read), Cache (cache.go), Database (database.go), Workload (workload.go, with its
-- probes in Workload.Probes) and Env (dedupeEnv of
-- workload.go: a loop over the entries with the map index and the slice out). Their child modules
-- hold what is proved: Names.Distinct, Storage.Claims, Secrets.RandomKey, Secrets.Generated,
-- Database.Cluster, Env.Upsert, Env.Dedupe, Env.Order, Workload.Environment, Workload.Wiring and
-- Workload.ReadBack.
--
-- internal/controller: the reconciler. A method is an action on a state, which holds the instance
-- behind the pointer and the history of requests, newest first (Controller.Client). Go's err results
-- are a sum, with the wrapping of fmt.Errorf as a constructor. conditions.go is Conditions;
-- deletion_policy.go is References (the JSON of owner references, isControlledBy), Apply
-- (applyStateful) and Secrets (reconcileSecretOwnership); paperlessinstance_controller.go is Apply
-- (apply, applyOwned), Secrets (reconcileSecrets, ensureGeneratedSecret), Database
-- (reconcileDatabase and what it calls), Steps (reconcileStorage, reconcileCache, reconcileWorkload)
-- and Reconcile (Reconcile, reconcileInstance, patchStatus). Runs, Runs.From and Inversion are the rules for
-- actions; Permitted and Retain say which requests are allowed where; the child
-- modules Trace, Success, Order, Ownership, Branches, Managed, Explicit, Lookup and Status hold what is proved.
--
-- Controller.SecretStore says what the reconciler relies on of a server on which nobody else writes
-- its Secrets; its child modules follow the stored Secrets through a step (Policy, Ensured, Settled, Quiet) and
-- through any reconciles (Stable). Controller.Role has the kubebuilder markers of the role, and
-- Role.Authorized compares the requests with them.
--
-- Controller.Desired says what a reconcile is to achieve, without its steps: the objects that an
-- instance asks to be applied, and a cluster as what was applied last in each place. Its child modules Places,
-- Quiet, Puts, Steps and Whole follow a reconcile to that, Slots and Ensure have the places, Status and Again a
-- second reconcile, and Targets, Apart and Isolated the places of other instances, also where a reconcile
-- fails; Secrets has the Secrets that it creates and patches, which are not applied and so are not part
-- of that cluster. Controller.Progress says what makes a reconcile succeed (Works of the libraries,
-- Serves of the API server, IsReconcilable of the instance); its child modules Apply, Ownership, Secrets, Database
-- and Whole go through the steps, and Retries through repeated reconciles. Controller.Cost counts requests.
--
-- internal/version/version.go: Version.
--
-- api/v1alpha1/groupversion_info.go and internal/manager/options.go are Startup.Options; cmd/main.go and
-- SetupWithManager are Startup.Command, actions on what has been called and logged so far, which
-- may end the program. Command.Stages lists the stages of the start.
--
-- The libraries of Kubernetes are parameters: Kube.Foreign has the opaque types and the pure
-- functions, Startup.Runtime the start of a manager, Api.DeepCopy.Memory the copies of the
-- libraries' types, Controller.Client.Machinery the functions of the controller (SetControllerReference,
-- the JSON codec, SetStatusCondition; Kube.Json has the decoded values, and Json.Same when they are the
-- same maps), and Controller.Client.Server the API server, which answers each
-- request by any function of the history before it, so that other clients may act between any two
-- requests. What a theorem relies on is a hypothesis of it: SetsCondition, RoundTrips, SetsNested,
-- Fills, ArePositive, IsStore, Controls, Documented, CopiesDeeply, Works, Serves, IsReconcilable,
-- Recovers, IgnoresStatus, AnswersKey. Tests.Fixtures, Store,
-- OfStartup and OfDeepCopy have a concrete choice of each, with which Tests applies the theorems.
--
-- Bounds: the only fuel is that of the decimal digits in Prelude.Int.show, a round for each digit and
-- n + 1 rounds for n, see show_from-fuel; all other loops are over lists. The port and the
-- number of instances are passed on without arithmetic, except that the latter is raised to one.
--
-- Not modelled: logging other than the lines of the start, contexts, test support, the charts and the
-- manifests. The JSON text null as an encoded object, on which a write to
-- a nil map would panic, and an alphabet index out of range, which the mask excludes, do not occur.
-- A Patch or a Get writes the server's answer back into the object; of this, only what is read
-- afterwards is modelled: the Secret, the instance, and readyReplicas.
pub mod Prelude
pub mod Kube
pub mod Api
pub mod Resources
pub mod Controller
pub mod Version
pub mod Startup
pub mod Tests
