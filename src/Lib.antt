-- ===== src/Lib.antt =====
-- Ultraviolet, a reverse proxy for Minecraft servers: a client opens a connection and sends a
-- handshake that names a server; the proxy looks the name up among its backends, asks the backend
-- what to do, and forwards the connection, answers it itself or closes it.
--
-- The parts and their files:
--   Prelude      lists by native numbers, Go's strings with strings.Split, fmt's %d and strconv.Atoi,
--                Go's maps with string keys (Table), bit operations as arithmetic (Bits)
--   Errors       core/errors.go and the other error values. A Go call gives an Outcome: a value, an
--                error, or `fault` for a panic
--   Mc           package mc. Mc/VarInt and Mc/Field are mc/type.go, Mc/Packet is mc/packet.go,
--                Mc/Handshake, Mc/Login and Mc/RealIp are mc/packet_login.go and mc/packet_status.go.
--                A decoder gets the bytes that are still to come and the error that ends them
--   Core         core/: the request, the actions, the states, the catalog of servers
--   Limiter      module/conn_limiter.go: FilterIpFromAddr and the Allow method of each limiter
--   Agents       module/state_agent.go, status_cache.go, handshake_modifier.go
--   Config       config/types.go, config/verify.go (VerifyConfigs), config/file.go:
--                ServerToBackendConfig (Config/Convert) and the key files that it reads and writes
--                (Config/Keys), ReadUltravioletConfig (Config/Startup); config/file_reader.go
--                (Config/Reader)
--   Backend      worker/backend.go and worker/type.go: HandleRequest in stages, one for each of its
--                early returns; BackendServer (Backend/Server); NewBackendConfig,
--                UpdateSameGoroutine and the select loop of Work (Backend/Settings)
--   Manager      worker/backend_manager.go and worker/worker_manager.go: the maps of backends, domains
--                and configs, and the routes that the workers share; worker/run.go and
--                worker/api.go (Manager/Start), with the listeners and their channel
--                (Manager/Intake); the removal of a backend beside the workers that use it
--                (Manager/Removal)
--   Ingress      worker/worker.go: ReadConnection, and ProcessConnection up to the call of
--                ProcessServer, on the bytes that a client sends; the loop of Work and ProcessAnswer
--                (Ingress/Answers), and the goroutines that this starts (Ingress/Sessions);
--                ProcessConnection with ProcessServer and the backends (Ingress/Backends)
--   Root         the root package. Root/Basic is basic.go, with its goroutines in Root/Link,
--                Root/ApiServer is server.go, Root/Proxy is proxy.go. Root/Client is the client's
--                connection: what each Read returns, and what a new buffered reader (mc/conn.go)
--                no longer sees of it; Root/Server is the interface of core/server.go that
--                ProcessServer is given
--   Cmd          cmd/main.go: the commands, over the readers of Config and the starts of Manager,
--                Root and V2
--   V2           package ultravioletv2, the folder src/: type.go (V2/Source, V2/VarInt), packet.go
--                (V2/Packet, V2/Raknet), config.go (V2/Config), server.go (V2/Server, with Run and
--                the loop over Java connections in V2/Server/Run). Its readers
--                give their bytes in segments, since one Read is taken for all there is
--   Tests        the theorems at concrete inputs
--
-- State is passed explicitly: an operation takes the record of its struct and gives the new one. A
-- read of the clock, a dial and what a server sends are arguments; a disk is a state of an unknown
-- type, which only the operations of a record look into. A goroutine that selects over channels is a
-- row of messages, worked off one by one. An int, int32, int16 or byte is held as its bit pattern, a
-- number below the power of two, and wraps where the source's type does; a counter of requests of one
-- window is not wrapped. Go's maps are association lists, and where the code walks one the order is an
-- argument.
--
-- Loops are structural recursion over the bytes or the list that they walk. VarInt.Encode and the verb
-- %d recurse on the accessibility of `<`, strings.Split on the length of its text, which is enough,
-- since each cut takes a byte. WriteVarInt of V2 may take ten rounds, and its result says where it has
-- not ended then. Where goroutines run beside each other in an open order there is a step relation:
-- proxy.go's loop (Root/Proxy/Pool), ProxyConnection (Root/Link, Ingress/Sessions), the listeners of
-- worker/run.go (Manager/Intake), and removeConfig (Manager/Removal).
--
-- Not modelled: sockets, JSON, the HTTP server, signals and what is logged; the end of memory; how
-- RealIP signatures are made and checked; the metrics; the races of goroutines on a map that the code
-- does not guard; the String methods that stringer has generated.
pub mod Prelude
pub mod Errors
pub mod Mc
pub mod Core
pub mod Limiter
pub mod Agents
pub mod Cmd
pub mod Config
pub mod Manager
pub mod Backend
pub mod Ingress
pub mod Root
pub mod V2
mod Tests
