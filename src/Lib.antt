-- ===== src/Lib.antt =====
-- Verification of testcontainerd, a daemon that keeps the containers and the service of a test run
-- alive while test processes hold leases. A client acquires a lease over HTTP, renews it by
-- heartbeats and releases it. The first acquire starts the containers and then the service; a reaper
-- collects the leases that ran out, stops the service when it has been idle for its own TTL, and ends
-- the daemon when it has been idle for the daemon's.
--
-- Errors          the `error` values of all packages, one constructor each, and their text
-- LeaseStore      daemon/lease_store.go and constant/lease.go: `leaseStore` and its methods
-- Registration    container/options.go, and the check of the registrations
-- Bundle          container/bundle.go: `Bundle` and its methods; Bundle.Pool has the goroutines of
--                 `startAllContainers`, one step of one goroutine at a time; Bundle.Names `Containers`
-- Runtime         tcdruntime/log.go; Runtime.Paths has tcdruntime/path.go with path/filepath, and
--                 Runtime.Info tcdruntime/file.go: `Read`, `Wait`, `Write`, `Remove`
-- SutManager      daemon/sut_manager.go: `sutManager`, its queries and durations; SutManager.Process
--                 has daemon/process_control_unix.go, the test of a command and `terminateProcess`;
--                 SutManager.Windows daemon/process_control_windows.go;
--                 SutManager.Address `normalizeProbeAddrs`; SutManager.Ready `waitSUTReady`;
--                 SutManager.Boot `ensureStarted`; SutManager.Halting `stop` and the goroutine that
--                 waits for the process
-- Daemon          daemon/server.go and daemon/lifecycle.go: `New`, the life cycle, `shutdownServer`;
--                 Daemon.Protocol has protocol/; Daemon.Handlers `withAuth` and the handlers;
--                 Daemon.Router the routes and `writeJSON`; Daemon.Reaper `loopReaper`;
--                 Daemon.Interleaved `handleAcquire` among the ticks; Daemon.Start `Start`
-- Cleanup         daemon/cleanup.go: `CleanupOrphans` and `waitContainerRemoved`
-- Client          client/client.go: the calls of a client; Client.Machine and Client.Autostart have
--                 client/autostart.go, Client.Environ its `mergeEnv`, Client.Runner its
--                 `prepareDaemonExecutable` and `copyFile`; Client.StartLock is the lock of
--                 a start among several processes; Client.Connect has `connectOrStart` and `New`. The
--                 heartbeat of client/heartbeat.go is in Entry.Modes, `beat_on`
-- Entry           testcontainerd.go: `New`; Entry.Modes has `Run` and its two modes
-- Prelude         numbers, texts, association lists and results that the others share
-- Examples        the theorems at concrete inputs, and tests
--
-- A method that runs under one mutex is one function from the state before to the state after. The
-- rest of the world is a type parameter `W`: what acts on it (containers, processes, files, the
-- network) is a function that is passed in, in the records `Registration`, `System`, `Files`, `Disk`,
-- `Clock`, `Host`, `Docker`, `Server`, `Http`, `Machine`, `CopyApi` and `WindowsApi`. What a call only
-- meets (the clock, random bytes, which addresses answer, which case of a `select` comes) is an
-- argument. What other processes do to the world happens in these functions, above all in a sleep.
-- Times are nanoseconds since the zero time; a text is a list of code points. A nil pointer, function
-- or error is `none`. JSON is a pair of an encoder and a decoder (`Codec`); a theorem that relies on
-- their agreement says so.
--
-- The parts meet in this way. A client finds the daemon by the runtime file, which `Start` writes
-- before it serves, or starts one, in a process of the same executable (on Windows, of a copy of it)
-- that the environment puts in daemon mode. Its calls go through `Http` to `serve_http`, which stands
-- for the routes of the server; `Delivers` says that the network takes them there and back.
--
-- The loops that are not structural run on fuel, one unit for each round, or over a list of what they
-- meet. The goroutines of `startAllContainers` run over a list of events, and the result is `none`
-- when the events are no complete run. The probe of `waitSUTReady`, `Wait`, `waitRuntimeAlive`,
-- `waitContainerRemoved` and `autoStartDaemon` run on fuel, and `none` is fuel run out. Where a round
-- sleeps and the loop ends at a deadline, the timeout divided by the sleep, and two, is enough; for
-- `autoStartDaemon`, whose rounds wait for 1.5 s, 121 rounds are enough for its three minutes, if no
-- lock is found stale. `waitContainerRemoved` goes on until the container is missing or the context is
-- done.
--
-- Not modelled: log lines and signals. A handler is one call from its start to its end, except that
-- `acquire_among` is `handleAcquire` with ticks of the reaper between its steps, and `resume_tick` is
-- a tick with the end of an acquire between its two tests. The heartbeat of a client is taken between
-- two turns of its tests. Of what happens while a daemon serves, `Start` sees the end only: the reaper
-- and the goroutine that waits for the context are in its parameter `serve`. In `Bundle.Pool` a
-- goroutine's receive from `jobs` and its test of the context are one step, and `halt` takes the wait
-- of `stop`, in which the code lets go of the mutex, as one step.
pub mod Prelude
pub mod Errors
pub mod LeaseStore
pub mod Registration
pub mod Bundle
pub mod Runtime
pub mod SutManager
pub mod Daemon
pub mod Cleanup
pub mod Client
pub mod Entry
pub mod Examples
