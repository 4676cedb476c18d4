-- ===== src/Lib.antt =====
-- Verification of NeXT-Server: a proxy node that serves the users of a panel, limits and counts
-- their traffic, and reports it.
--
-- A node authenticates a connection, the router (router.go) finds the user's state, checks the
-- destination and counts what the connection carries in that state. One loop pulls the users and the
-- node's settings from the panel, another pushes counts, online addresses and audit hits to it; both
-- work on the table of users (users.go).
--
-- The files and the code that they model:
--   Adapter       adapter/node.go, the data that the panel and the node exchange
--   Users         users.go: State is userState, Table is userTable with newUserTable, get, update,
--                 collectTraffic, restoreTraffic; Pending says what the table still has to report;
--                 Update, Collect and Restore prove what each operation does; Ledger has runs of
--                 whole operations that do not overlap; Atomic has the atomic steps of the loops and
--                 the connections in any interleaving, and Race a connection that ends at the wrong
--                 moment; Limits follows the users' limiters through the runs of
--                 Ledger, Online the connections of one user and their addresses
--   Destination   destination.go: Filter is privateAddress, Check is checkDestination, Dialer is
--                 privateFilterDialer and its packet connection; Ranges and Safety prove
--   Limit         common/limit/limiter.go: Bucket is New, SetLimit and bucket, Wait is wait,
--                 Conn the limited connections
--   Audit         audit.go: Auditor is auditor and its operations; Match and Hits prove
--   Panel         api: Config is the data, Node is parseNodeConfig and what it calls, Client is get
--                 and do, Fetch the three Fetch methods, NewClient is NewClient, send and the
--                 reports, Number is UnmarshalJSON of types.go; Settings proves
--   Server        server.go: State is pullOnce, syncNodeServer and applyUsers, Push is pushOnce, New is
--                 NewServer with common/frontproxy/proxy.go, Resolve is common/frontproxy/resolve.go,
--                 Life is Start and Close; Fetched, Sync, Node, Recover and Unavailable say what a pull
--                 leaves; Steps and Loops see the operations as runs of Users.Ledger, and Runs follows
--                 a server from NewServer to Close, one step after the other; Order visits the users in
--                 other orders; Attribution, Given and Authenticated go from a credential to the counters; Ticker is the loop of
--                 the rounds, with Recover
--   Router        router.go: Route is RouteConnectionEx and what it calls, Packet
--                 RoutePacketConnectionEx, Closing the blocking calls, onceClose and the end of a
--                 connection; Admission proves
--   Proxy         proxy/server.go and proxy/*/server.go: a file per protocol is its UpdateUsers, New
--                 has the constructors, Life is Start and Close, Handlers what gives a connection to
--                 the router, Decimal the user names of AnyTLS; Buildable and Released prove
--   Inbound       proxy/inbound: Accept is ServeTCP, Listen the listeners, Stream is StartStream and
--                 CloseStream, Tls the fallback certificate, Alpn the optional ALPN
--   Reporter      common/reporter: Key and Limit are limit.go, Sentry is sentry.go and sentry_stub.go,
--                 Logger is reporter.go with connlog.go; History, Window and Runs prove
--   Instance      nextserver.go and constant/build.go (Life); cmd/next-server/main.go: Command is run,
--                 Position the position of a syntax error, Shutdown is closeMonitor beside the close;
--                 Outcomes proves
--   Profiler      common/profiler: Start and Close of both builds
--   Netip         what the program uses of Go's net/netip
--   Metadata      what it uses of sing's Socksaddr and sing-box's InboundContext
--   Base          shared types, tests and lemmas
--   Tests         concrete runs
--
-- Go's pointers to shared objects (user states, limiters, the activity of an address) are numbers,
-- and the objects stand in a store. In Users.Atomic a step is an atomic operation, or what one holding
-- of a mutex does; in Users.Ledger and Server.Runs a whole operation (a part of a pull or a push, the
-- routing of a connection) is one step, which no other overlaps. An int64 counter is its 64 bits, with the wrap-around of additions. A map is an association list
-- without repeated keys; the order of its list stands for the order in which Go visits it. Times
-- are numbers. The limiter of golang.org/x/time/rate and sing's Socksaddr methods are interfaces
-- with the laws that the program relies on; so are Go's regexp and float64, an HTTP exchange, the
-- decoding of JSON, the sniffers, the resolver, the protocols' services, Sentry's library and
-- reflect.DeepEqual. A panel that is
-- conditional on ETags is described where the theorems about fetching need it.
--
-- The only loop on fuel is `wait`: with a positive burst each round takes at least one byte, so as
-- many rounds as there are bytes are enough, which is proved.
--
-- Not modelled: sockets, HTTP and JSON, the protocols themselves (they are sing's); the build
-- command, the command line and the version command, which only call libraries; the first heartbeat
-- and the goroutine of each connection.
pub mod Adapter
pub mod Audit
pub mod Base
pub mod Destination
pub mod Inbound
pub mod Instance
pub mod Limit
pub mod Metadata
pub mod Netip
pub mod Panel
pub mod Profiler
pub mod Proxy
pub mod Reporter
pub mod Router
pub mod Server
pub mod Tests
pub mod Users
