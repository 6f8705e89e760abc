-- ===== src/Lib.antt =====
-- aether-powerdns is a Kubernetes operator for PowerDNS: it deploys authoritative servers
-- (PowerDNSServer) and dnsdist tiers (DNSDist), and converges zones (Zone) and record sets (RRSet)
-- against the HTTP API of the deployed servers. This library models the operator's own logic and
-- proves it.
--
-- The parts and their files:
-- - Prelude: shared names. Prelude/Mutation has Go's results and the code that changes a state on
--   the way to one; Prelude/Steps how a chain of such code that succeeds went; Prelude/Texts and
--   Prelude/TextLists what is used of strings, strconv, fmt and slices; Prelude/Dict maps as
--   association lists; Prelude/Lists lists over the native numbers.
-- - Api: the custom resources of api/v1alpha1, a record for each struct. Api/Meta has what they
--   share with apimachinery.
-- - Pdns: internal/pdnsclient/client.go. `call` is `Client.do`, and one function stands for each
--   method of `Client`. The HTTP stack, the JSON decoder and the server behind them are the
--   parameter `Transport` (Pdns/Types).
-- - Controller/World: the state of a reconciler: the cluster, PowerDNS, and the events recorded.
--   The client of controller-runtime, with controllerutil's finalizers and apimachinery's
--   conditions, is the parameter `Cluster`. The cluster and PowerDNS are separate fields, so that
--   a call of the one cannot touch the other. World/Quiet and World/Gated have the rules by which
--   actions leave PowerDNS alone, or change it only behind a gate.
-- - Controller/Access: internal/controller/pdnsaccess.go and the resolution of references.
-- - Controller/Records: internal/controller/rrset_controller.go. Records/Match has `rrsetMatches`,
--   `desiredRRSet` and `nameInZone`, Records/Conflict `findConflict`, Records/Deletion
--   `reconcileDelete`, Records/Reconcile `Reconcile`.
-- - Controller/Zones: internal/controller/zone_controller.go. Zones/Create has `createZone`,
--   Zones/Dnssec `ensureDNSSEC`, Zones/Deletion `reconcileDelete`, Zones/Reconcile `Reconcile` and
--   `reconcileZone`.
-- - Manifests: internal/manifests/manifests.go. Manifests/Settings has the configuration file, the
--   extra settings and the hash over them, with the SHA-256 digest as a parameter;
--   Manifests/Naming the names and labels, Manifests/Budget the disruption budget, Manifests/Services
--   the Services of the API, of DNS and of the additional load balancers, Manifests/Workload the
--   ConfigMap, the Deployment and (Workload/Schema) the Job that applies the schema. Manifests/Pods
--   has the types of Kubernetes that they use.
-- - Manifests/Routes: internal/manifests/routes.go. Manifests/Unstructured: internal/cnpg/cnpg.go
--   and internal/manifests/observability.go, with nested maps as a data type.
-- - Controller/Kube: the client of controller-runtime and client-go for the objects that the operator
--   owns, as the parameter `Kube`: one get, create, update and delete for all kinds (`Kind`), whose
--   types are in Manifests/Pods, Manifests/Routes and Manifests/Unstructured. Kube/Children has
--   `ensureOwned`, `ensureUnstructured`, `updateDeployment` and the wrappers of converge.go;
--   Kube/Apart and Kube/Answers the rules by which actions leave a part of the cluster alone, and
--   what they return.
-- - Controller/Servers: internal/controller/powerdnsserver_controller.go. Servers/Validation has
--   `validateSpec`, a function for each block of its checks; Servers/Status `setPhase` and
--   `setFailed`; Servers/Backend the API key and the backend Secret; Servers/Workload
--   `ensureWorkload` and what it calls; Servers/Exposure the routes and the endpoint of DNS;
--   Servers/Phases the phases up to `phaseExposingDNS`; Servers/Reconcile `phaseReady` with the
--   correction of drift, `reconcileDelete` and `Reconcile`.
-- - Controller/Servers/Lifecycle: the life of a server as its status shows it, as the transitions of
--   an abstract machine (`Transition`), without how they come about. Lifecycle/Rules to
--   Lifecycle/Refines have the phases of the code as such transitions, Lifecycle/Steady the phase of a
--   server that is up among them, Lifecycle/Advances to Lifecycle/Progress what a
--   pass has done that asks for another at once, Lifecycle/Ranks and Lifecycle/Reached runs of passes,
--   between which others may change anything but the status.
-- - Controller/Services: `updateService` of internal/controller/converge.go, over a client for
--   Services (`ServiceApi`) and client-go's retry, which are parameters.
-- - Controller/Objects: `deleteIfExists` and `updateConfigMap` of the same file, over clients for one
--   object (`ObjectApi`) and one ConfigMap (`ConfigMapApi`); Kube/Stored is about the client of the
--   latter that the controllers pass on.
-- - Manifests/Network: internal/manifests/networkpolicy.go. Network/Admitted has how Kubernetes
--   evaluates ingress rules.
-- - Manifests/Tier: internal/manifests/dnsdist.go. Manifests/Tier has names, labels, configuration and
--   budget, Tier/Workload the ConfigMap and the Deployment, Tier/Exposed Services and routes. The
--   additional Services share one Go map, for their labels and selectors: each is a function of it.
-- - Controller/Tiers: internal/controller/dnsdist_controller.go. Tiers/Validation has
--   `validateDNSDist`, Tiers/Backends `backendsReady` over what one pass reads (`View`),
--   Tiers/Children `upsertOwned` and the objects of a tier, Tiers/Reconcile `Reconcile` and the
--   status. Tiers/Outcome has what a pass makes of the status, Tiers/Selection which pods the
--   Services select.
-- - Controller/Watches: the field indexes and the functions `rrsetsForZone`, `zonesForServer` and
--   `dnsdistsForServer` of the three controllers that wait for another object. Watches/Keys takes
--   the keys of the indexes apart, Watches/Woken has which objects a change wakes.
-- - Tests: runs at concrete data, with small clusters and two small PowerDNS servers.
--
-- How code is translated: a method that can fail or change something is an `Action`, a function
-- from the state to a result and the state after it. A chain of `if err != nil` is a function by
-- clauses on the result it looks at, named for what was done before (`with_server`, `patched`). An
-- object that Go changes in place is passed on as a new record. Pointers and slices that may be
-- nil are an `Option` where the code tells nil apart, and else a plain value or list. An int32 or
-- int64 is a natural number: the schemas of config/crd admit no negative value, and the operator
-- computes none. Loops run over lists, by structural recursion; only the printing of a number runs
-- on fuel, one more than the number, which has no more digits than that.
--
-- Not modelled: cmd/operator (start of the manager), the registration of types, indexes and watches
-- (the rest of SetupWithManager), how controller-runtime queues requests, and the generated deep
-- copies; contexts and timeouts, logging, and the time stamps of conditions.
pub mod Prelude
pub mod Api
pub mod Pdns
pub mod Manifests
pub mod Controller
pub mod Tests
