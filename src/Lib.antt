-- ===== src/Lib.antt =====
-- A mock HTTP server: a request is matched against configured mocks, and the best one answers it.
--
-- How the parts work together. The server (internal/server/server.go) takes a request, lets the
-- matcher (internal/matcher/matcher.go) find a mock in the active scenario, applies chaos and latency,
-- writes the mock's response, and tells the tracker (internal/tracker/tracker.go) and, while recording
-- is on, the recorder (internal/recorder/recorder.go) what it answered. Recordings are exported as
-- mocks that the matcher can serve. The manager (internal/management/manager.go) keeps mocks with
-- versions and templates for an API (internal/management/api.go), and the OAuth2 provider (internal/oauth/oauth.go) plays an
-- authorization server for clients under test.
--
-- Which file models which part.
--   Prelude       shared names; lists, maps, integers and texts as Go has them
--   Models        internal/models/mock.go
--   Http          the parts of net/http that the program uses; results, errors and panics
--   Externals     the libraries the matcher calls, as parameters (Sample instantiates them)
--   Tracker       internal/tracker/tracker.go: Log, GetLogs, Clear, Count
--   Matcher       internal/matcher/matcher.go: Criteria is matches and its helpers, Script is
--                 evaluateJavaScript, Sequence is getSequentialResponse, Scenario is
--                 GetAvailableScenarios, Search is FindMatch
--   Recorder      internal/recorder/recorder.go
--   Management    internal/management/models.go (Types) and manager.go (Manager, Filter, Stats, and
--                 Transfer for Import and Export)
--   OAuth         internal/oauth/oauth.go: Provider, Authorize, Grants, Userinfo
--   Server        internal/server/server.go: Request and Answer are handleRequest, Chances is applyChaos
--                 and calculateLatency, Recording and Scenarios are the control endpoints
--   Validator     internal/validator/validator.go
--   Sse           internal/sse/handler.go: Writing is sendEvent, Stream is HandleStream, Script is
--                 handleJavaScriptMode; Reader is an independent reader of event streams,
--                 and Wire the text that a script puts on the wire
--   Loader        internal/loader/loader.go
--   WebSocket     internal/websocket/handler.go: Modes is the service of a connection, Registry the
--                 connections of a handler under concurrent calls
--   Proxy         internal/proxy/proxy.go
--   Grpc          internal/grpc/server.go and models.go
--   Management.Api  internal/management/api.go
--   GraphQl       internal/graphql/handler.go and models.go
--   OpenApi       internal/openapi/parser.go
-- The other children of a part hold its theorems and are named for what they prove; Tests holds runs at
-- concrete inputs.
--
-- How code becomes definitions. A method that changes its receiver returns the new state; a method
-- under a lock is one step, and a request is one step of the server. A handler of the server returns
-- the list of its effects in order. Readings of the clock and random draws are arguments. A Go map is
-- an association list, and where the code ranges over one the order is a parameter or does not matter.
-- A panic is a value of its own. Every loop is recursion on a list or a number; only the digits of a
-- number n use fuel, n + 1, which is enough since each digit divides by ten.
-- The tracker's ids are int64 with their wrap-around; counters of calls, versions and mocks are
-- unbounded numbers, and so is the index into a sequence: the code's int would wrap around after 2^63
-- calls. A script is a function that returns; one that does not return is not modelled. The difference
-- of two bounds of a latency wraps around as in the code.
--
-- The loop of an event stream takes fuel for its rounds; the number of events after which it closes is
-- enough.
--
-- Not modelled: GraphQL subscriptions, callbacks beyond their start, the watcher, the table of default
-- templates, SAML, plugins, the dashboard and start-up, and of gRPC the options of
-- the server. They are I/O or call third-party code for the
-- most part. Interleavings inside one request are not modelled either, such as those of the keep-alive
-- goroutine of an event stream with the stream.
pub mod Prelude
pub mod Models
pub mod Externals
pub mod Tracker
pub mod Http
pub mod Matcher
pub mod Management
pub mod OAuth
pub mod Recorder
pub mod Server
pub mod Validator
pub mod Sse
pub mod Loader
pub mod GraphQl
pub mod Grpc
pub mod Proxy
pub mod WebSocket
pub mod OpenApi
