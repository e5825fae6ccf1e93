-- ===== src/Lib.antt =====
-- A model of ssh-roundrobin, a proxy that forwards connections through a pool of SSH upstreams.
--
-- The program. A client's connection reaches the proxy (internal/proxy), which reads a SOCKS5 request
-- and dials the target through one upstream after another. The pool (internal/sshroundrobin) chooses
-- the upstream: it keeps the list of SSH clients, a strategy, and the failures of each
-- upstream-target pair. The tracker (internal/status) remembers the results of each upstream, and
-- keeps them in a file. The start (internal/app) reads the settings and the servers file
-- (internal/config), registers a client for each server and accepts connections until a signal comes;
-- internal/daemon writes the PID file and stops the process that it names.
--
-- The files.
--   Prelude     names passed on from the libraries, Boolean tests, integers, lists, a counter modulo n.
--   Text        Go strings as lists of code points, with the functions of package strings that the
--               program calls; Text.Decimal prints integers.
--   Outcome     `(value, error)` pairs and calls that may panic.
--   Dict        a Go map with string keys, as an association list behind its laws.
--   Env         what the program calls and does not implement: the clock, files, the SSH library,
--               child processes, io. Its operations act on a state `W` of the world outside.
--   Os          the same for the outer parts: files, users, processes, sleeping.
--   SshServer   internal/sshroundrobin/sshserver.go.
--   CommandConn internal/sshroundrobin/commandconn.go: dialling through a proxy command;
--               CommandConn.Deadline its deadlines, Expiry their proofs.
--   SshClient   internal/sshroundrobin/sshclient.go and lifecycle.go; SshClient.Laws: when a client
--               is connected.
--   RoundRobin  internal/sshroundrobin/roundrobin.go and targetfailure.go: the pool and the failures
--               of targets. RoundRobin.Strategy is strategy.go with GetForTarget, Get and
--               GetWithRetry (get_for_target, get_any, get_with_retry); RoundRobin.Health is
--               healthcheck.go; Checked, Switched and Settled its proofs, and RoundRobin.Summary
--               the report on the upstreams, Lines its proofs. The other modules below RoundRobin
--               hold proofs: View what a client sees of a pool, Strategy.Step and Verdicts one
--               round of a selection, Loops the induction rules of the two loops, Scan, Sound,
--               Passed, Complete, Cap, Wrap and Active the selections, Targets the failures, Valid
--               the invariant of all methods.
--   ServerStatus internal/status/serverstatus.go; History and Queries its proofs.
--               ServerStatus.Persistence is internal/status/persistence.go; File its proofs.
--   Proxy       Proxy.Dial is internal/proxy/dial.go, Proxy.Socks5 the request reader of
--               internal/proxy/socks5.go; Attempts, Request and Accepted are their proofs.
--               Proxy.Tunnel is TunnelBidirectional of internal/proxy/tunnel.go, Proxy.Forward
--               IsLikelyTargetBlocked and forward.go; Reports its proofs. Proxy.Handler is
--               HandleSocks5Connection of socks5.go; Served, Says and Answers its proofs.
--   Config      Config.Servers is internal/config/servers.go and Config.Settings
--               internal/config/config.go; Lines, Accepted and Validated their proofs.
--   Daemon      internal/daemon/daemon.go; Pid, Stop and Fork its proofs.
--   App         App.Startup is internal/app/connect.go with runHealthCheckCycle of shutdown.go,
--               App.Boot is Run of app.go up to the accept loop, App.Accept is New and acceptLoop with
--               the shutdown signal, as a step relation, and App.Shutdown the whole running process:
--               the accept loop, the handlers, the signal handler and startHealthCheck of shutdown.go,
--               and the periodic flush of persistence.go. Registered, Steps, Kept, Ordered and
--               EarlyExit are their proofs.
--   Main        cmd/main.go; Foreground its proofs.
--   Tests       runs on a small world, and each theorem with hypotheses applied to an input.
--
-- How the model stands to the code.
--   Names are the code's in lower case with underscores: GetForTarget is get_for_target. A method
--   takes its receiver's record and returns the new one, with the world.
--   A pointer to an SSHClient is a number, and Pool.clients is the heap. The methods of the pool run
--   under its lock, and one call is one step. GetWithRetry and DialTargetWithRetries give up the lock
--   between their calls; there a parameter `others` stands for what other goroutines do, and may
--   change all that is shared.
--   A nil map lookup, a nil pointer that is checked and an error are values (Option, Result); a nil
--   dereference, an index out of range and the Close of a connection without a transport are the
--   outcome `panics`.
--   The pool calls OnConnectionError under its lock. Env.on_connection_error is what a call does to the
--   world. The function that connectServers sets records a failure in the status tracker; it is a field
--   of App.Startup, and a call of it is a step of App.Shutdown. During a dial it is one of the acts of
--   `others`.
--   A time is the number of nanoseconds since the zero time of Go. The round-robin counter is a
--   uint32 and the totals are uint64, with their wrap-around written out. A signed setting is an
--   integer ℤ; a count that the program only raises by one is a natural number without a bound, since
--   2^63 events are out of reach.
--   An error is its message.
--   Loops over the servers and over the rounds of a dial recurse on the number of rounds, which the
--   code computes before the loop, so no fuel is involved. The wait of Stop, which ends at a deadline,
--   runs on 101 rounds (Daemon.stop_rounds): the deadline is ten seconds away and a round sleeps a
--   tenth of a second.
--   The lines of a file come from the scanner of the library (Os.scan_lines). The goroutines of the
--   running process are interleaved in any order, one act at a time: an act is what a goroutine does
--   between two waits or under one lock. The acts of a handler are the calls of the pool and the
--   tracker that Proxy.Forward and Proxy.Handler make, in any order and with any arguments, and
--   changes of the world between them. There a selection, a health check and a
--   CloseAll that panic are left out.
--
-- Not modelled. Log lines, which are output only. Parsing the command line and the .env file:
-- calls of the packages flag and godotenv, whose results are parameters. The copying of a tunnel:
-- io.Copy, a parameter that runs both directions (Proxy.Tunnel.Copier). JSON is a parameter with
-- its round trip, and null entries of the status file are left out. Reading, writing and the
-- addresses of a proxy command's connection, which pass the calls on. A second signal, which the
-- system handles.
pub mod Prelude
pub mod Text
pub mod Outcome
pub mod Env
pub mod Os
pub mod ServerStatus
pub mod SshServer
pub mod CommandConn
pub mod SshClient
pub mod Dict
pub mod RoundRobin
pub mod Proxy
pub mod Config
pub mod Daemon
pub mod App
pub mod Main
pub mod Tests
