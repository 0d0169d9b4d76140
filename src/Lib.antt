-- ===== src/Lib.antt =====
-- LlamaRack manages llama.cpp workers: it estimates what a worker will need, finds GPUs for it, stops
-- other workers where that makes room, and keeps account of what each running worker was promised.
-- A gateway passes requests on to the workers. Modelled is the package that decides where workers run,
-- backend/internal/scheduler, whole, with the records of backend/internal/hardware that it reads; the
-- admission of requests and the back-off of backend/internal/lifecycle; the reader of model files,
-- backend/internal/ggufmeta; the protection of logins and the destinations of the OIDC client of
-- backend/internal/security; and the routes and the running requests of backend/internal/gateway.
--
-- The parts and their files:
--   Base             lists, tests, maps with text keys, texts as lists of code points, `int64` as bit
--                    patterns, and floating-point arithmetic as a parameter
--   Hardware         hardware/hardware.go: `GPU`, `GPUProcess`, `Snapshot`
--   Scheduler.Demand     scheduler/demand.go: `EstimateDemand` and the split of the experts' weights
--   Scheduler.Options    the launch options, of demand.go and runtime_plan.go
--   Scheduler.Placement  scheduler/placement.go: `PlanPlacement`, automatic and manual; Gpus has the order
--                        of the GPUs and the weights of a split
--   Scheduler.Capacity   reservation.go: `adjustSnapshot` and `reservationsFor`
--   Scheduler.Ledger     reservation.go: the type `Ledger`. Ledger.antt has its state and the steps
--                        under the mutex, Operations the exported calls; Invariant, Admit, Sweep,
--                        Calls, History and Outcome are about them
--   Scheduler.Eviction   eviction.go: the ranking, and the plans that stop instances (Cover)
--   Scheduler.Attribution  eviction.go: the device bytes put down to a loaded instance
--   Scheduler.Runtime    runtime_plan.go: the launches that `PlanRuntime` tries. Search has its binary
--                        searches, Plan their order, Admission the evictions and `AcquireRuntime`
--   Lifecycle.Pending    lifecycle/pending.go: requests that wait and run
--   Lifecycle.Failures   lifecycle/start_failure.go: the back-off of instances that fail to start, and
--                        the end of `startOneWithEviction` in service.go
--   Gguf             ggufmeta/ggufmeta.go, budget.go, features.go and summary.go: `Inspect`. Gguf.antt
--                    has the reader and its budget, Values the values, Trim two functions of `strings`
--                    on bytes, Inspect the header, the entries and what derives from them; Encode is
--                    the format as a writer, RoundTrip and Bounds are about them
--   Security.Login       security/security.go: `LoginProtector`, and the maps that it keeps (Entries);
--                        Bounds, Calls, Locks, Failures and Keys are about it
--   Security.Network     security/security.go: `EffectiveRemoteAddress`; Remote is about it
--   Security.Outbound    security/outbound.go: the policy of the OIDC client, the addresses that it blocks
--                        (Addresses) and the hosts that it allows (Hosts); Ranges, Dial and
--                        Redirect are about it
--   Gateway.Active       gateway/active.go: the registry of running requests; Invariant, Cancel and
--                        Calls are about it
--   Gateway.Routes       gateway/routes.go: the table (Table) and `classify`; Unique is about it
--   Tests            samples and runs of the model
--
-- `PlanRuntime` asks `EstimateDemand` for the memory of some launch options and `PlanPlacement` for
-- GPUs; the eviction planners ask both again on the snapshots that stopped instances would leave; the
-- ledger asks them on the snapshot that its leases leave, and records a lease for what fits.
-- The scheduler's demand starts from the facts that `Inspect` derives. The lifecycle asks the ledger for
-- a lease before it starts a worker, and records a failed start; the gateway classifies a request,
-- lets the lifecycle admit it, and registers it while it runs.
--
-- How the source is read:
--   - an `int64`, and an `int` of a 64-bit host, is its bit pattern, a number below 2 ^ 64; sums and
--     products wrap as in Go, comparisons are signed, and a theorem that needs a range says so;
--   - `float64` and the functions of `math` and `strconv` on it are the record `Float64`, of which
--     the theorems use only that a conversion to `int64` gives an `int64`;
--   - strings are lists of code points, and in Gguf lists of bytes; `unicode.ToLower` is a parameter
--     where the case of a letter beyond ASCII matters, and is read on ASCII letters where the text is
--     compared with ASCII words;
--   - `net/url.Parse`, `net/netip.ParseAddr`, the resolver, `strconv.FormatFloat` and `strconv.Quote`
--     are parameters, and the theorems hold for any;
--   - the running requests are shared by two maps, so they stand in a memory under numbers;
--   - a map is an association list in which a key stands once; the order of its entries is that of
--     insertion, where Go leaves the order open;
--   - `sort.Slice` by a total order is insertion sort;
--   - each method of the ledger holds its mutex from start to end, so a history of calls is a
--     sequence of steps. The clock and the random lease ids are arguments: an instant is a number of
--     nanoseconds, and 0 is the zero time; the time to live is a number too, so a negative duration,
--     which `NewLedgerWithTTL` replaces, is 0. A history takes ids that no lease has;
--   - copies that protect shared slices and maps are the values themselves.
--
-- Bounds: the binary searches run on 64 rounds of fuel, and each round halves a range of numbers
-- below 2 ^ 63; a search without rounds left gives the error `out_of_rounds`, which the source lacks. The digit loop of `intString` has room for the 24 digits of its buffer. The loop that
-- evicts addresses has the number of addresses as fuel, and each round drops one; the loops of Trim
-- have the length of the text. The loops over the entries of a model file recurse on their number.
--
-- Not modelled: the loading and draining of workers in lifecycle, the summary and the remote
-- reader of model files, the scheme and the allowed origins of a request, and the
-- access rules of the gateway; names, versions and utilisation of devices, and their probing; the
-- other packages of the backend, which move files, HTTP requests, database rows and processes; the
-- web frontend.

pub mod Base
pub mod Hardware
pub mod Scheduler
pub mod Lifecycle
pub mod Gguf
pub mod Security
pub mod Gateway
pub mod Tests
