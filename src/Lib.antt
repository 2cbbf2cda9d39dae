-- ===== src/Lib.antt =====
-- fab-dns shares services between Kubernetes clusters. Each cluster exports services as global
-- services to one cluster, whose service hub keeps one GlobalService resource per service with the
-- endpoints of all clusters; the other hubs import these resources; in each cluster a CoreDNS
-- plugin answers queries for global services with the endpoints that are nearest to it.
--
-- The parts, the files that model them and the code they model:
--
-- - Api: the GlobalService resource of pkg/apis/v1alpha1/global_service_types.go, as records with
--   the fields of the source. An optional pointer is an Option; a nil map or slice is the empty
--   list.
-- - Kube: the client of sigs.k8s.io/controller-runtime as a record of functions that pass on the
--   cluster behind it (`Client`), and what its documentation promises (`ClientLaws`). Kube.Memory
--   is a client that keeps promises and serves the examples.
-- - Fabdns: the plugin, pkg/fabdns. Fabdns.Parse is `parseRequest` from the labels of the name on;
--   Fabdns.Global is `getGlobalRecords` and `getAdHocRecords` from the service on, the loop over
--   the endpoints with its three lists, the choice of the list, and the request's cluster and
--   hostname; Fabdns.Records is `generateRecords`; Fabdns.Serve is `ServeDNS` with both lookups,
--   `writeMsg`, `nextOrFailure` and `IsNameError`; Fabdns.Setup is `fabdnsParse` and `setup`. A
--   reply is a value with the code and the error that the handler returns and the messages that it
--   wrote. Fabdns.Directives is the order of plugins of cmd/fabdns/main.go.
-- - Hub.Namespace: `Ensure` and `Exists` of pkg/util/namespace/namespace.go.
-- - Hub.Manager: `CreateOrMergeGlobalService`, `RevokeGlobalService` and `removeEndpoints` of
--   pkg/service-hub/types/global_service_manager.go. The manager holds its lock through a call, so
--   that a call is one function from the cluster behind the client to the next. Hub.Manager.Merging
--   and Hub.Manager.Revoking read that cluster as a table of endpoints by service and exporting
--   cluster.
-- - Hub.KeySet and Hub.Clusters: pkg/service-hub/types/objectkeyset.go and cluster.go. The store's
--   pointers to clusters are indices of a heap, since those who hold a pointer write to the cluster
--   also after it has been removed from the store. Hub.Clusters.View reads the store as a map from
--   names to clusters, and Hub.Clusters.Steps is the relation of the stores that the operations
--   reach.
-- - Hub.Slices: the loops of `GetEndpointsOfHeadlessService` and its orders, of
--   pkg/service-hub/exporter/service_exporter.go.
-- - Hub.Exporter: `Reconcile` of serviceExporter, and in Hub.Exporter.Lost that of
--   lostServiceRevoker, of pkg/service-hub/exporter. The state is the cluster behind the client and
--   the set of exported keys. The exporter calls the hub through two functions of its
--   configuration, in a server those of Hub.Manager. Hub.Exporter.Ordered compares exporters that
--   meet slices and entries of maps in different orders.
-- - Hub.ApiServer: the handlers of pkg/service-hub/apiserver/apiserver.go, as functions of the
--   cluster behind the client and of the cluster store, through the middleware that renews the
--   expire time of the calling cluster. Hub.ApiServer.Traces is the server over a sequence of
--   requests, and Hub.ApiServer.Covered relates its cluster store to what it has written.
--   Hub.ApiServer.Threads has the handlers and the ticks of the cleaner as threads, one access to
--   the shared state at a step, and runs them by a schedule.
-- - Hub.Client: pkg/service-hub/client/client.go, with requests and responses as values.
--   Hub.Client.Linked puts a server of Hub.ApiServer where package http sends requests, and
--   Hub.Exporter.Deliveries hands that client to the exporter, as `initClient` does.
-- - Hub.Cleaner: `cleanExpiredClusterEndpoints` of pkg/service-hub/cleaner/cluster_cleaner.go. What
--   other goroutines do to the clusters meanwhile is a parameter: the store at each test, also while
--   the expired clusters are collected.
--   Hub.Cleaner.Departed is a tick after requests to the server.
-- - Hub.Importer: one tick of pkg/service-hub/importer/global_service_importer.go: which goroutines
--   `importServices` starts, and what `createOrUpdateGlobalService` and `deleteService` do.
--   Hub.Importer.Running runs them one after another, and Hub.Importer.Mirrors is a tick in any
--   order of its goroutines, each of which is one step.
-- - Hub.Options: the options of pkg/service-hub/options.go with their defaults, and `Validate`.
--   Hub.Options.Names reads the two regular expressions.
-- - Hub.Startup: `Complete` of that file with the functions `AddToManager` that it calls, `Run`,
--   `runAPIServer`, the functions `Start` of importer and cleaner, and `Execute` of cmd.go. A step
--   ends with a value, an error or a panic.
-- - Hub.Process: the main function of cmd/service-hub/main.go and pkg/about/about.go.
-- - Hub.Recording: `recordGlobalServicesByCluster` of pkg/service-hub/options.go.
-- - System: the plugin on top of a cluster that the importer has written, and a cluster that imports
--   from a hub. System.Journeys is a service on its way from an exporter to the answer of the
--   plugin in another cluster.
-- - Regexp: what of Go's package regexp the options use, as a decision of the language of an
--   expression.
-- - Base: lists, maps and tests over the native and the whole numbers. Base.Texts is the order of
--   texts, and Base.Sorting what sorting by it promises.
--
-- Maps of Go are association lists with distinct keys. Where a `range` over a map of endpoints or of
-- clusters decides an order, the order is a parameter; the keys of one cluster are met in the order of
-- their list. Texts are native strings, times are natural numbers, durations are signed, and the clock
-- is a function from the moment of a reading to a time.
--
-- The loop of `removeEndpoints`, which deletes from the slice that it walks, runs on fuel: the
-- number of endpoints, which suffices, since each round either goes on or removes one. All other
-- loops are structural.
--
-- Parameters, since their code is elsewhere: the Kubernetes client, CoreDNS and
-- github.com/miekg/dns (the split of names, the zones of a plugin and their match, messages, the next
-- plugin), the
-- parsing of addresses of net, `sort.Sort`, JSON, the router of chi, package http and the files and
-- certificates that the hub reads. They are the fields of `Env` records and arguments of the
-- definitions; the laws that a theorem needs are its hypotheses, such as that a text of JSON is read
-- back as the value it was written from, and that the router leads a request to its handler.
--
-- Not modelled: logging, metrics, contexts and their timeouts, since the code only passes them on;
-- the parsing of flags, the content of certificates and signals; the wiring of controllers; the
-- registration of types; generated code; the main function of the plugin, which only calls CoreDNS;
-- the end-to-end tests.
pub mod Base
pub mod Api
pub mod Kube
pub mod Regexp
pub mod Fabdns
pub mod Hub
pub mod System
