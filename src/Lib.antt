-- ===== src/Lib.antt =====
-- Tenodera is a web panel for many Linux hosts. A gateway serves the browsers, and an agent on each
-- host connects to it; both speak the messages of protocol/. A browser logs in through PAM, opens a
-- WebSocket with its session's id and opens channels to hosts; the gateway adds the user and the
-- role to each open request and passes it, under a channel id with the session's prefix, to the
-- agent of the host, whose router picks a handler. An agent proves by a signed challenge that it
-- holds its key, and enters by a known key, by a bootstrap token, from the gateway's own host, or
-- by an administrator's approval.
--
-- Which file models which part, by its path in the repository:
--   Protocol.Channel, Protocol.Message    protocol/src/channel.rs, message.rs
--   Protocol.Challenge                    protocol/src/auth.rs
--   Protocol.Json, Protocol.JsonTree      serde_json's values, as parameters, and an instance
--   Gateway.RateLimit                     panel/crates/gateway/src/rate_limit.rs
--   Gateway.Session                       panel/crates/gateway/src/session.rs
--   Gateway.Auth                          panel/crates/gateway/src/auth.rs
--   Gateway.Origin                        panel/crates/gateway/src/security_headers.rs
--   Gateway.Client, Gateway.Client.Loop   panel/crates/gateway/src/ws.rs
--   Gateway.Registry                      panel/crates/gateway/src/agent_registry.rs
--   Gateway.AgentAuth                     panel/crates/gateway/src/agent_auth.rs
--   Gateway.HostsConfig                   panel/crates/gateway/src/hosts_config.rs
--   Gateway.Enrollment, Gateway.Handshake panel/crates/gateway/src/agent_ws.rs
--   Gateway.Pam                           panel/crates/gateway/src/pam.rs,
--                                         panel/crates/pam-helper/src/main.rs
--   Gateway.Admin                         panel/crates/gateway/src/main.rs
--   Agent.Session                         agent/src/main.rs, identity.rs
--   Agent.Router                          agent/src/router.rs, handler.rs
--   Agent.Util, Agent.Commands            agent/src/util.rs
--   Agent.Files                           agent/src/handlers/file_ops.rs, file_list.rs
--   Agent.Cron                            agent/src/handlers/cron.rs
--   Agent.Ssh                             agent/src/handlers/ssh_manage.rs
--   Agent.Users                           agent/src/handlers/users.rs
--   Agent.Hosts                           agent/src/handlers/hosts.rs
--   Agent.Ini                             agent/src/handlers/packages.rs (INI files)
--   Link                                  the agent's and the gateway's handshake, together
--   Prelude, Dict, Std                    shared lemmas, HashMap, and what is used of std
-- A function keeps its name; where Rust's name is taken, as with `get` and `remove`, it says what
-- it works on (get_session, remove_session, remove_pending, enqueue for PendingRegistry::insert).
-- A method that changes its receiver returns the new one beside its result. Below a component stand
-- its laws, in modules named for what they show, and its tests.
--
-- Choices of the model:
--   * A time is a number of nanoseconds, read by the caller and passed in; `Instant` subtraction
--     stops at 0. Random ids and nonces are passed in as well.
--   * A HashMap is a list with distinct keys. Where the code walks one, its order is the list's.
--   * A lock is held for a whole operation, as in the code, so an operation is one step; what
--     happens between two operations is another step. ws.rs reads the clock several times in one
--     round, which is one read here.
--   * The handshake and the WebSocket are machines over what their awaits yield, so that any order
--     of frames, time-outs, approvals and closings is a list of inputs. A loop has no fuel: it is a
--     function on that list.
--   * A channel of tokio is a number. Whether a send succeeds is an input; back-pressure is not
--     modelled.
--   * The hosts' file is what it parses to. A save that fails may leave anything.
--   * The agent's commands are a log of the processes that are started, each as root or as a user;
--     how one ends is an answer of the host to what was started before. What the file system says
--     of a path is asked once for a request, but the files of ssh_manage.rs are read between its
--     commands. A slice that cuts a character is a panic, which is a result there.
--   * Texts that the program takes apart are lists of code points, and bytes are numbers under 256;
--     other texts are strings. A use count is a u32 that wraps.
--   * Parameters, since their code is not in the repository: SHA-256, base64 and Ed25519,
--     Unicode's table of letters and digits, the PAM library and the sudo groups, the parsing of addresses, and serde_json, whose laws are fields of
--     Protocol.Json.Json and hold of the trees of Protocol.JsonTree.
--
-- Not modelled: the TLS set-up, the logs, the start of the programs and their configuration, the
-- lists and health checks for the user interface, verify_sudo and the sudo check of the PAM helper,
-- execute_rpc, the agent's control of processes, and its other handlers, whose work is mostly
-- commands and files of the host.
mod Prelude
pub mod Dict
pub mod Std
pub mod Protocol
pub mod Gateway
pub mod Agent
pub mod Link
