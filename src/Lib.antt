-- ===== src/Lib.antt =====
-- The Portainer agent: the edge services, which poll the server and keep the reverse tunnel, the
-- stacks and the schedules as it asks, and the HTTP side, which checks the signature of a request
-- and hands it to the agents of a cluster.
--
-- The program's parts and their files:
-- Base: the names that all modules share, tests, lists, Go's maps, strings and integers.
-- Agent: the types of agent.go and edge/client that the parts share.
-- Outside: what the agent calls and does not implement (the server behind edge/client, the
--   deployers, the chisel library, the operating system). Each call is a value of `Call`; the
--   state of a component holds the history of its calls, newest first, and an `Outside` answers
--   from that history, so that nothing is assumed of the answers but what a theorem names.
--   WriteFile, FileExists and ReadFromFile of filesystem/filesystem.go are defined there.
-- Base64: the raw standard encoding of encoding/base64, over lists of bytes.
-- Stack: edge/stack/stack.go. `StackManager` is the record of the manager, `process_stack` and
--   `update_stacks_status` (Stack/Process) are what a poll does, `build_deployer_params`
--   (Stack/Params) is what an async command does, `work` (Stack/Worker) is what the deployment
--   goroutine does in a turn, and `start`, `stop`, `set_engine_status` and `turn` (Stack/Lifecycle)
--   are its life. Stack/System puts these together as a sequence of events.
-- Scheduler: edge/scheduler/scheduler.go as `CronManager`; edge/scheduler/logs.go in
--   Scheduler/Logs.
-- Tunnel: chisel/client.go. Poll: edge/poll.go, which drives the three above in the sync mode.
-- Async: edge/poll_async.go. `process_async_commands` (Async/Commands) is what the agent does with
--   the commands of an answer, on the same schedules and stacks; Async/Loop is the loop, with one
--   event for each case of its `select`. The tickers may tick at any time, also when stopped.
-- Server: edge/client, the two clients of the server. `AsyncClient` (Server/AsyncClient) collects the
--   reports, `get_environment_status` (Server/AsyncPoll) sends them with a snapshot and retries;
--   `EdgeClient` (Server/EdgeClient) makes one request for each method and caches the statuses.
-- Manager: edge/edge.go. `EdgeManager` turns the loop of the polls (Poll/Loop) and the stack manager
--   on and off, as `check_docker_runtime_config` and the background ticks ask.
-- Requests: `docker_operation` of http/handler/docker/docker_operation.go and `redirect` of
--   http/proxy/agentproxy.go choose the agent that runs a request; Requests/Gathering is
--   http/proxy/cluster.go and http/proxy/response.go, with `cluster_operation`; Requests/Signatures is
--   http/security/notary.go and crypto/ecdsa.go.
-- Browse: http/handler/browse, with `build_path_to_file_inside_volume` of filesystem/filesystem.go.
--   A path of files is the list of its elements, innermost first.
-- DockerSnapshot: the counters of docker/snapshot.go.
-- Revocation: edge/revoke/revoke.go, `verify_certificate` with the lists that the service keeps.
-- Registry: edge/registry/server.go, which looks up credentials in the stack manager's stacks.
-- Key: edge/key.go. Cluster: serf/cluster.go, the members of the cluster and their tags.
--
-- How the state corresponds to the code. Go's maps are association lists with each key once; Go
-- visits a map in any order, and the theorems hold for every order of the list. A pointer to a
-- stack object that is also in the manager's map is modelled by writing each change of a field to
-- the map as well (`share`, `write_stack`). Integers are natural numbers: versions and identifiers
-- are compared only (the environment's identifier in a key and the intervals of the async mode are
-- integers with a sign), and the counter of retries stays below 120961. A turn of the deployment
-- goroutine is one step, and the calls of other goroutines come between the turns; so the signal
-- channel is looked at in one step, and a turn sees no change that another goroutine makes while it
-- runs. Stop closes the channel and clears the field in one step. Requests that check their
-- signatures are handled one after another, while the handlers of the server share the associated
-- key without a lock. The loops of the code are recursions on lists, and the endless loops are
-- given by their body. Two functions have fuel: `itoa`, with one more round than the number, each
-- of which divides it by ten, which is enough by the round trip of the Edge key; and the attempts
-- of the async client's request, of which two are enough by what is proved of their outcome.
--
-- The parts work together as in the code: a poll drives the tunnel, the schedules and the stacks,
-- the Edge manager drives the polls and the stacks, the registry server reads the stacks, and the
-- route of a request is taken from the members that serf/cluster.go makes of the published tags. In
-- the cluster operation the goroutines of the members are sequences of steps, each makes its copy
-- with what it finds in the shared URL and body, and their results are taken in any order. The
-- clients of Server are not put under the polls of Poll and Async, which take the answers of the
-- server from the outside instead.
--
-- Not modelled: logging, contexts and deadlines; the TLS set-up, the reverse proxies to local
-- sockets, and the websockets, which are input and output with little state; the wrappers of the
-- deployers, of Docker and of Kubernetes, which are calls of libraries; and the start of the
-- process. JSON, cryptography, the comparison of snapshots and the cache of statuses are libraries,
-- and arguments of the definitions that use them.
pub mod Agent
pub mod Async
pub mod Base
pub mod Base64
pub mod Cluster
pub mod Key
pub mod Outside
pub mod Poll
pub mod Manager
pub mod Scheduler
pub mod Server
pub mod Registry
pub mod Requests
pub mod Browse
pub mod Revocation
pub mod DockerSnapshot
pub mod Stack
pub mod Tunnel
