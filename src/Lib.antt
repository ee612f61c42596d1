-- ===== src/Lib.antt =====
-- The backend services of bbn: a location-sharing and messaging application.
--
-- The gateway limits the rate of requests, has each token verified by the authority service, and
-- passes the identity on in headers; the services trust these headers, or check the token themselves.
-- The location service keeps the users' positions in a grid of shards in memory and searches it. The
-- messages service asks the favourites, the location and the authority service before it stores a
-- message.
--
-- The files, and the code that each models:
-- - Rate: services/gateway/src/rate.rs, and `check_user_rate` of services/messages-service/src/main.rs.
--   Rate/Window describes the requests of one key, Rate/Bound and Rate/Send count what is accepted.
-- - Float: the 64-bit floats, a parameter; Float/Plane is an instance over the integers for the tests.
-- - Geo: services/common/src/geo.rs and services/common/src/shard.rs. Geo/Grid is about the
--   enumeration of the shards.
-- - Location/Store: `MemoryStore` of services/location-service/src/store.rs, where `remove` is
--   `remove_user`. Location/Store/Sorting has the sorts, Invariant and Valid what every operation keeps,
--   Lookup the store as a map from users to entries, Sweep the sweep; Slots is a map with one slot
--   for each user, and Refinement is about runs of operations on both.
-- - Location/Nearby: `MemoryStore::nearby`. Evict is about its effect on the store, Hits about what it
--   finds, Results, Complete and Unlimited about what it returns.
-- - Service: services/common/src/auth.rs (Service/Auth, whose extractors have the names of the types in
--   lower case, and Service/Issue for the tokens that are issued), services/common/src/models.rs,
--   services/common/src/mongo.rs and services/common/src/service_token.rs (Service/TokenCache).
-- - Authority: services/authority-service/src/tiers.rs (Authority/Tiers, and Authority/Admin for the
--   handlers that change tiers and features, with Changes and Requests about them),
--   services/authority-service/src/verify.rs (Authority/Verify) and
--   services/authority-service/src/auth.rs (Authority/Login; Authority/Session and Authority/Steps are
--   about logins).
-- - Messages: services/messages-service/src/main.rs. Messages/Peers is about the checks between the two
--   users, Messages/Send about what is stored and deleted, Messages/Deliver and Messages/Exact about when
--   a message is delivered; Read has the lists of messages, Threads and Inbox are about these.
-- - Location/Handlers: services/location-service/src/main.rs with the in-memory store. Push has the
--   pushes, Search the search and the reads; Separated and Shown are about what a search shows, Lookups
--   about reads.
-- - Blocks: services/blocks-service/src/main.rs. Blocks/Send is about messages after a block.
-- - Favourites: services/favourites-service/src/main.rs. Pairs has the status of a pair, RangeSync the
--   range synchronisation (Radius and Synced are about it), Listing the lists and notifications.
-- - Gateway: services/gateway/src/guards.rs and services/gateway/src/proxy.rs. Routes and Serve model
--   services/gateway/src/handlers.rs, Socket the message sockets of services/gateway/src/ws.rs; Identity,
--   Access, Sound and Posts are about these.
-- - Prelude and Text: helpers, hash maps as association lists, the string methods and (Text/Decimal) the
--   decimal digits of a u32.
--
-- State is passed explicitly; each reading of a clock and each answer of a database or of another
-- service is an argument, so a theorem holds for all of them. An operation is one step: the locks and
-- the interleaving of two operations are left out. Loops are recursions on lists, so no fuel is needed.
-- An `Instant` is a number of milliseconds, `duration_since` stops at 0, and a count of requests is a u32
-- that wraps around. A hash map's order of iteration is that of its association list, and an unstable
-- sort is taken to be stable. Addition of milliseconds to an i64 date is exact.
--
-- Parameters: the floats (the record `Float`, with laws of comparison only), and in `Platform` and
-- `Calls` the object ids, the token library, JSON parsing, the collections and the HTTP requests; in
-- `Opaque` the password protocol.
--
-- Not modelled: the database store and the choice between the stores in the location service, the
-- health endpoints, the users service, the lists of tiers and features for administrators and
-- `seed_tiers`, registration and the login of guests, the location socket and the timers of the
-- gateway, migrations, the page server, and the browser's code. Start-up code, logging and the
-- rendering of answers are input and output.
pub mod Prelude
pub mod Text
pub mod Rate
pub mod Float
pub mod Geo
pub mod Location
pub mod Service
pub mod Authority
pub mod Messages
pub mod Blocks
pub mod Favourites
pub mod Gateway
