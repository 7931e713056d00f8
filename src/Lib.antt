-- ===== src/Lib.antt =====
-- Verification of ezlb, a layer-4 load balancer that configures the kernel's IPVS from a file.
--
-- A configuration (pkg/config) lists services and their backends. The health checker
-- (pkg/healthcheck) decides which backends are up. The reconciler (pkg/lvs/reconciler.go) compares
-- what is desired with what the kernel holds, through lvs.Manager and an IPVSHandle, and calls the
-- SNAT manager (pkg/snat) for services with full_nat.
--
-- Files and code:
--   Std: the functions of Go's net, strconv and time that the code calls, as a parameter.
--   Config and its children: the types, getters and Validate of pkg/config/config.go; Config.Manager:
--     its Manager, over viper as a parameter.
--   Lvs.Types: pkg/lvs/types.go and ipvs_models.go. Lvs.Handle: the interface IPVSHandle;
--     Lvs.Handle.Fake: pkg/lvs/ipvs_handle_fake.go, whose maps are association lists;
--     Lvs.Handle.Linux: ipvs_handle_linux.go, over moby/ipvs as a parameter; Lvs.Manager:
--     pkg/lvs/manager.go.
--   Lvs.Reconciler: pkg/lvs/reconciler.go. A call is a function from a World (the handle's state, the
--     SNAT manager's state, the managed map) to a World and the returned error. Build is
--     buildDesiredState, Destinations is reconcileDestinations, Services the bodies of the loops, Run
--     Reconcile and Cleanup; the other children hold the proofs.
--   Snat: pkg/snat/snat.go; Snat.Fake: pkg/snat/manager_fake.go; Snat.Linux: manager_linux.go over
--     iptables as a parameter, and Snat.Linux.Stats: stats_parse.go.
--   Healthcheck: pkg/healthcheck/manager.go; Healthcheck.Update is UpdateTargets. A goroutine of
--     runCheck is an entry of the state, a probe's answer is an input, and Healthcheck.Reachable has
--     the runs of the manager as sequences of steps.
--   Metrics: pkg/metrics, over the Prometheus client as a parameter.
--   Trafficlog: pkg/trafficlog; Trafficlog.Collector: its collector, with the log fields of
--     pkg/logutil/fields.go.
--   Admin: pkg/admin/server.go up to the listener, over http.ServeMux as a parameter, and its handlers.
--   Server: pkg/server/server.go, which brings the parts together. Server.Daemon has the daemon's
--     runs as sequences of steps of the main loop, the health checks' callbacks, the probes and the file
--     watcher, in any order; a step is what one lock protects, and the main loop and each callback keep
--     the configuration that they have read between their steps. Server.Turn is one turn of the main
--     loop, and Server.Overtaken a callback that a reload overtakes; Server.KernelParams: kernel_params.go.
--
-- Conventions: a Go map is an association list whose `range` visits it in the order that a parameter
-- arranges, so that the theorems hold for every order. An `int` is a mathematical integer and a
-- conversion to uint16 wraps around. An error is a value of a data type with the data that its text
-- prints. A mutex makes each call one step; what the checker answers is fixed during a call of
-- Reconcile. Every loop is structural recursion, so there is no fuel.
--
-- Not modelled: logging other than the collector's entries and the kernel parameter checks, what
-- net/http serves, the command line, the construction of loggers, and the tickers and goroutines that
-- call the collector and the probes.
pub mod Shared
pub mod Std
pub mod Config
pub mod Snat
pub mod Lvs
pub mod Healthcheck
pub mod Metrics
pub mod Trafficlog
pub mod Admin
pub mod Server
