-- ===== src/Lib.antt =====
-- A library about the program supervictor: an endpoint that receives the uplinks of devices, keeps them
-- in a store and shows the health of the fleet, and the firmware of the devices.
--
-- The parts and their files, with paths from the root of the repository.
--   Time, Time/Civil, Time/Offset   supervictor/endpoint/src/time.rs: now_rfc3339, parse_rfc3339_unix,
--              format_rfc3339; Time/Civil holds the conversions between days and dates that stand
--              inline there.
--   Models     supervictor/common/src/models.rs and status.rs, supervictor/endpoint/src/models.rs and
--              error.rs, and StoreError of store/mod.rs.
--   Store      the trait DeviceStore of supervictor/endpoint/src/store/mod.rs; Store/Contract states
--              what it promises, against a registry of devices and uplinks.
--   Store/Sqlite   supervictor/endpoint/src/store/sqlite.rs: migrate and every method, over Store/Sql,
--              which is what they use of rusqlite; Store/Stored is what the backends keep.
--   Store/Dynamo   supervictor/endpoint/src/store/dynamo.rs: the items and every method.
--   Store/Factory  supervictor/endpoint/src/store/factory.rs: create_store.
--   Handlers   supervictor/endpoint/src/handlers.rs, every handler.
--   Fleet      supervictor/endpoint/src/fleet.rs: staleness, snapshot, summary.
--   Middleware supervictor/endpoint/src/middleware.rs: client subject, admin gate, log guard.
--   Watchdog   supervictor/endpoint/src/watchdog.rs: the loop of run, one tick at a time.
--   Dashboard  supervictor/endpoint/src/ui/mod.rs: cookies, CSRF check, status and registration forms,
--              rows of the fleet table; Dashboard/Token the generator of the tokens.
--   Dashboard/Views, Dashboard/Pages   supervictor/endpoint/src/ui/views.rs: the pages as trees, with the
--              handlers fleet and device_detail of ui/mod.rs; Dashboard/Forms what a browser sends of a
--              page, Dashboard/Texts what the rows of the fleet table show.
--   Events     supervictor/endpoint/src/ui/sse.rs: the task that forwards uplinks to a client.
--   Config     supervictor/endpoint/src/config.rs: from_env.
--   Routes     supervictor/endpoint/src/routes.rs: the route handlers, and the event of an uplink;
--              Routes/Table the two functions router.
--   Dns        supervictor/edge/src/network/dns.rs: find_qname_end, build_dns_response, dns_hijack.
--   Http       supervictor/edge/src/network/http.rs: get_request, post_request, parse_response.
--   Firmware   supervictor/edge/src/app/tasks.rs with the delays of supervictor/edge/src/config.rs: the
--              tasks app and connection.
--   Desktop    supervictor/edge/src/bin/desktop_main.rs: the loop of socket_app.
--   Server     supervictor/edge/src/network/server.rs: request parsing, JSON strings, builders;
--              Server/Serve the loop of serve over its connections.
--   Prelude, Exec, Json   texts, decimal numbers and lists as Rust's standard library has them; the
--              effect of handlers and store methods; serde_json as a parameter.
--
-- How they interact. The handlers and the dashboard call the store's methods and change the state of
-- its backend; an error keeps the state that was reached. The fleet reads devices and uplinks off the
-- store, and the watchdog and the dashboard read the fleet. Handlers stamp records with the clock
-- reading `now`, which the fleet parses back. The tasks of the device build their requests with Http
-- and act on what the network answers, which is the argument of a round.
--
-- Numbers and texts. A text is its list of Unicode scalar values, its bytes are those of UTF-8.
-- Machine integers are natural numbers and integers without a bound where the code's values stay far
-- below one; where a width matters (parsing, the XOR of the CSRF check) it is written out.
--
-- Fuel. The loop over the labels of a name runs on one more than the length of the data, and each
-- round passes a byte; the digits of a number are written to arrays of the size the code has, and a
-- number with more digits is a panic. The chunks of an asset are cut on as much fuel as it has
-- bytes, and each chunk takes at least one.
--
-- Parameters. serde_json, serde_json_core, heapless buffers, HTTP headers, the clock, the hashers of
-- the tokens, the connection to SQLite, the client of DynamoDB and the channels of the event stream
-- are arguments, with the laws of their documentation as records. The handlers take any store.
--
-- Not modelled: the opening of the backends, the rendering of the pages, the
-- streams, the sockets and the radio of the device, TLS and start-up: they are calls of other
-- libraries for the most part.
pub mod Prelude
pub mod Time
pub mod Models
pub mod Events
pub mod Exec
pub mod Json
pub mod Store
pub mod Handlers
pub mod Fleet
pub mod Middleware
pub mod Watchdog
pub mod Dns
pub mod Firmware
pub mod Desktop
pub mod Http
pub mod Server
pub mod Dashboard
pub mod Config
pub mod Routes
