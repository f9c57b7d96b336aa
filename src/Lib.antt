-- ===== src/Lib.antt =====
-- blacktemple_kn manages a VPN client on a router: a daemon that supervises one xray process, plans
-- which traffic goes through it, captures the traffic of a chosen client, and chooses keys and
-- servers. This library models its core and proves what makes it correct.
--
-- The parts and their files (paths from the repository's root):
--   Supervisor      src/internal/supervisor. States and Policy are state.go and policy.go; Record the
--                   fields and the helpers that end in Locked; Regions each stretch of code under the
--                   mutex; Interleaving those stretches in any order, which covers all schedules of
--                   Start, Stop, Reload and their goroutines; Sequential these operations and the
--                   restarts with no overlap; Recovery is recover.go, with no other operation in it.
--   Strings, Netip  the functions of Go's strings, strconv and net/netip that the other parts call.
--   Routing         src/internal/routing: Mode, Match, Rule, Builtin and Plan are the files of the same
--                   name; Order and Fresh hold the lemmas on sorting and on ids.
--   Dns             src/internal/dns: the DNS plan that follows a routing plan.
--   Capture         src/internal/routing: Commands is hybrid_plan.go, Engine and Lifecycle hybrid.go,
--                   Probes and Preflight preflight.go.
--   Keys            src/internal/keys: manager.go and snapshot.go.
--   Servers         src/internal/servers/select.go.
--   Auth            src/internal/auth/session.go.
--   Connection      src/internal/connection: Candidates is the order of candidates, Files atomic.go,
--                   Generation the input of the generator, Service one attempt, Control the
--                   operations, Status the status page, Errors errors.go and httperr.go; over Keys,
--                   Servers, Profiles and the operations of the supervisor: each has no overlap,
--                   and between them its goroutines do anything that they can (Wake).
--   RemoteLists     src/internal/remotelists: Limits is limits.go, Domain and Parse are parse.go.
--   RemotePolicy    src/internal/remotepolicy: Settings, Keys, Document and Manager are the layers of
--                   merge.go, the allowlist and the parser of parse.go, and integrity.go with manager.go.
--   Profiles        src/internal/profiles: State and Store are the records and the file (persist.go),
--                   Entities what is made of share entries, Service and Operations the changes of one
--                   profile, and Transactions `commit` with the exported operations. The other files
--                   hold proofs, named for what they prove.
--   Prelude         shared names, tests, lists, integers and texts.
--   Examples        tests, and each theorem at a concrete input.
--
-- How they interact: Dns.Plan takes a plan of Routing.Plan; Capture.Commands excludes the networks of
-- Routing.Builtin; the functions of the supervisor, the engine and the key lifecycle take a state and
-- return the next one. What code outside answers is an argument: the clock, the process runner and
-- the process table (Runner, Processes), the multiplication of float64 (Floats, of which nothing is
-- assumed), the executor of commands and the policy guard (Host), the decoder of JSON
-- and URLs (Decoder), the hash and the signature (Crypto), the store of profiles (Storage), and the
-- checks of package xray on share entries (Xray).
--
-- Bounds and fuel: numbers are natural numbers or integers without a bound, since the code does not
-- come near the limits of its 64-bit ones, but for addresses, whose words are kept within their width.
-- The loop that prints a decimal runs on fuel, of which the number itself is enough, and the loop that
-- makes room for a session on as many rounds as there are sessions; the loop that looks for pids in a
-- line runs on more rounds than the line is long, of which all are equal; all other loops are structural.
-- Text is a list of code points; ASCII letters change case, other letters keep theirs.
--
-- Not modelled: JSON, files, the network, HTTP handlers, child processes and generated configuration
-- of xray; the updates of remote lists, logins and subscriptions; the overlap of Recover, or
-- of an operation of the connection, with other operations of the supervisor.
pub mod Prelude
pub mod Supervisor
pub mod Strings
pub mod Netip
pub mod Examples
pub mod Routing
pub mod Dns
pub mod Keys
pub mod Servers
pub mod Capture
pub mod Auth
pub mod Connection
pub mod Profiles
pub mod RemoteLists
pub mod RemotePolicy
