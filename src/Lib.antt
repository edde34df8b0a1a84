-- ===== src/Lib.antt =====
-- A verification library for the runner and the backend of cloud.devenv.sh.
--
-- The program: the backend keeps a table of jobs and offers queued jobs to the runners that are
-- connected by websocket; a runner claims a job when a machine for it fits its resources, runs it in
-- a virtual machine, and reports how it ended. Users cancel and retry jobs at the backend, and a task
-- of the backend stops those that run for too long.
--
-- The parts, and the files that model them:
--
--   Base         what all parts share: the names of the libraries, Boolean tests, lists and association
--                lists over the native numbers (a HashMap of the program is an association list).
--   Protocol     runner/src/protocol.rs: the messages; a Uuid is a number.
--   Runner.Resources
--                runner/src/resource_manager.rs: check_limits, allocate_resources, release_job, the
--                pools of addresses and context ids. Guards has the RAII guards: their drop spawns a
--                task that releases later, so the system of guards is a step relation in which such a
--                task runs at any time.
--   Runner.Jobs  runner/src/job_manager.rs: the jobs of a runner, their transitions and events.
--   Runner.Vms   runner/src/vm_manager.rs and vm.rs: the task of one machine (vm_task_impl) and the
--                control channels. A machine is a parameter: a record of what it answers.
--   Runner.MainLoop
--                runner/src/bin/runner.rs: handle_server_message, the rounds of the loop of main with
--                the guards of its select!, the completion task and the metrics. Rounds has the step
--                relation of a runner whose tasks, machines and connection are interleaved freely, also
--                within the handler of a claim.
--   Runner.Logs  runner/src/bin/runner.rs, setup_log_stream: the body that a job's messages are sent in, and
--                what logger/src makes of it.
--   Runner.Vsock runner/src/vsock.rs: the framing of messages over a stream of bytes, and the handler of
--                a guest's connection. What is read is a list of messages and failed reads. Reporter
--                and Writer are the guest's end, Server the loop of connections.
--   Runner.Linux runner/src/vm_impl/linux.rs: new, with its guards and processes, drop, and the loop of wait; what
--                the operating system and the hypervisor answer is an argument.
--   Runner.Client
--                runner/src/client.rs: the request by which a runner connects.
--   Runner.Macos runner/src/vm_impl/macos.rs: new with its guard, the listener of a job, and the loop of
--                wait; what the virtualization framework answers is an argument.
--   Runner.Driver
--                runner/src/bin/driver.rs: the program inside the machine, as actions that change its
--                process and can fail. Actions has the actions and what they change.
--   Runner.Network
--                runner/src/vm_impl/linux_networking.rs: the guest's network, from the command line that
--                linux.rs writes.
--   Backend.Jobs backend/src/job/model.rs: the statements on the table of jobs.
--   Backend.Dispatch
--                backend/src/runner/serve.rs (how a runner connects is in Upgrade), cancel_job of backend/src/job/serve.rs, and what
--                update_status of backend/src/github/model.rs does to the table of jobs.
--   Backend.CloudConfig
--                backend/src/runner/cloudconfig.rs: the machines of a devenv.yaml, of what the parser of
--                YAML gives.
--   Backend.Accounts
--                backend/src/auth.rs and backend/src/zitadel/actions.rs: who is admitted, and the webhook
--                that tells Zitadel.
--   Backend.GitHub
--                backend/src/github: the tables of GitHub's owners, installations, repositories and
--                commits, the creation of a commit's jobs, the events that change them (Webhook), the pages
--                that list them (Pages, Overview), and the handler retry_job of backend/src/job/serve.rs (Retries).
--   Logger       logger/src: the lines of a log in an ordered database, an interface, and the stream that
--                follows them.
--
-- The parts meet as in the program: the main loop holds the resource manager, the job manager and the
-- machine manager in one record and calls their operations; the backend's dispatch holds the table of
-- jobs, the table of runners and the channels; the driver reports over the connection that Runner.Vsock
-- serves, into the state that the wait of a machine reads; the webhook of GitHub holds that server and its own tables,
-- reads the machines of a commit by Backend.CloudConfig, and offers their jobs by Backend.Dispatch.
--
-- Bounds: usize and u64 are 64 bits wide, and the sums and products of the resource manager wrap as
-- in a release build (word). The channels whose bound the code can meet without waiting keep it (32
-- messages to a runner, 10 commands to a machine, 100 entries of a guest's log, 10
-- connections of a listener); the others are unbounded here. Only the loops of wait in Runner.Linux and
-- Runner.Macos (poll of Base.Loops) and the reads of a stream (incoming) run on fuel, one for each turn,
-- and a theorem says which fuel is enough. Every other loop that is modelled goes over a list, and the loops that never end are step
-- relations, or go over the list of their passes (the stream of a log).
--
-- A method that holds a lock from its first read to its last write is one step, and so is a statement
-- or a transaction of the database. The time, the ids that are drawn, what GitHub, the sockets and the
-- machines answer, and which rows are locked by others are arguments.
--
-- Texts are those of the language where they are only compared, and lists of code points (Base.Texts)
-- where the code takes them apart.
--
-- Not modelled: the coding of messages by serde, the calls of
-- GitHub, the start of a machine, the host's network set-up, the
-- frontend, and the two percentages of the metrics, which are floating-point numbers for display.
pub mod Base
pub mod Protocol
pub mod Runner
pub mod Backend
pub mod Logger
