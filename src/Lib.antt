-- ===== src/Lib.antt =====
-- A model of a self-hosted backup server and of its protocol with the agents: the state that
-- internal/server keeps, the operations on it, and what they guarantee.
--
-- The parts of the program and how they meet. Agents enroll with a one-time token, and each keeps
-- one control channel open (internal/server/api_agent.go) which the hub (internal/server/hub.go)
-- knows it by. Jobs are edited on either side and synchronised; a run of a job is created by
-- internal/server/jobs.go and sent to the agent, or queued until it connects. The agent uploads
-- blobs named by their SHA-256, and commits a manifest as a snapshot. Retention deletes snapshots,
-- and the garbage collection (internal/server/gc.go) the blobs that no manifest names any more.
-- Transfers and remote commands share the channel. All rows are in SQLite (internal/server/store),
-- all objects in a storage backend (internal/server/storage).
--
-- The files, and what each models:
-- - Prelude: names of the library, Boolean tests, bytes, lists and Go's string functions.
-- - Sql: the statements of the store over tables as lists of rows, and their laws.
-- - Proto: the messages and records of internal/proto/proto.go.
-- - Store: the tables (internal/server/store/*.go); its children have the statements table by
--   table, and Owned says what it is for a statement to touch only one agent's rows.
-- - Hub: internal/server/hub.go. Connections have numbers in place of pointers.
-- - Storage: the Backend interface of internal/server/storage/storage.go, and its keys.
-- - Pending: the requests of docker.go, schedtask.go and browse.go that wait for an answer.
-- - Server: the shared state, with a child for each source file: Jobs (jobs.go), Transfers
--   (transfers.go), Commands (commands.go), Messages and Snapshots (api_agent.go, and deleteSnapshot
--   of gc.go), Gc (gc.go, and eachManifestEntry of manifest.go), Sched (sched.go), Admin
--   (api_admin.go). Their children hold the proofs.
-- - Bundle: internal/bundle/bundle.go, the enrollment that is appended to an agent binary.
-- - Agent: internal/agent. Scan, Upload and Backup are the backup engine (engine.go) from the walk
--   over the files to the report; Backup/Site joins it to the server's handlers by the calls of
--   http.go. Restore has the paths of restore.go, with underPrefix of internal/server/manifest.go.
--   Config is agent.yaml against the server's set of jobs (config.go). SchedTrigger and SchedTasks
--   are the PowerShell that schedtask.go generates, with the quotes that PowerShell documents.
-- - Tests: small states, and the theorems at them.
--
-- How state corresponds. A Go method on *Server is a function from the state to a result and the
-- next state. `Server.store` is the database, `Server.hub` the map of connections, and
-- `Server.objects` the active backend, whose faults are a list of outcomes for its coming calls.
-- The clock stands still in a handler. `NewID` draws from a sequence of ids. A choice that Go's
-- scheduler makes inside `Send` is read from a list in the hub. Loops are recursion on the list
-- they go through. The batches of checkAllBlobs run on fuel, the number of hashes, which is enough
-- as no batch is empty, and so do the digits of a number, on the number itself.
--
-- A run of an agent acts on a world: a record of functions for the files and the calls of the
-- server (Agent/Upload/Host). Its context is the number of times that it still is found alive, so
-- that a cancellation can come at every point where the code looks. A directory tree is the list of
-- its entries with the entries below each, as filepath.WalkDir meets them.
--
-- Not modelled: the JSON and HTTP framing, the errors of the database itself other than a taken
-- key, the listings of the administration pages, the switch of the storage backend, the cloud
-- backends, and of the agent's own code its log and progress messages, the hooks' processes, the
-- Windows walk, transfers, commands, containers, and the run of a script on scheduled tasks. YAML
-- and the watch over agent.yaml by its hash are left out: that file is what it holds, or is
-- unreadable. Text is the bytes of UTF-8; strings.EqualFold and ToLower are those of ASCII, but for
-- the names of days.
-- Uploads of one run, which the code does four at a time, are one after another. Compression,
-- SHA-256, bcrypt, the cron and the JSON parsers are parameters, and so are the functions of the
-- standard library that depend on the system. Locks are not modelled: each handler is one step, and
-- so is the goroutine that dispatches the pending work after a hello.
pub mod Prelude
pub mod Sql
pub mod Proto
pub mod Store
pub mod Hub
pub mod Storage
pub mod Pending
pub mod Server
pub mod Bundle
pub mod Agent
pub mod Tests
