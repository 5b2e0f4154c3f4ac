-- ===== src/Lib.antt =====
-- The content service of Decentraland: an HTTP server that takes uploads of scenes, checks who
-- signed them and that every file has the content its CID names, stores the files, and records in
-- Redis which scene owns which parcel of the map. Other endpoints list parcels and scenes.
--
-- The parts and the files that model them. Paths are from the root of the repository.
--   internal/handlers/upload_handler.go, errors.go: Upload (the request types), Upload.Request
--     (parseRequest and its parts), Upload.Handler (UploadContent and its status codes)
--   internal/handlers/upload_service.go: Upload.Service, ProcessUpload step by step
--   internal/handlers/mappings_handler.go, validate_handler.go: Mappings (GetMappings, GetScenes,
--     GetParcelInformation) and Mappings.Info (GetInfo, GetParcelMetadata); parseCoordinates is in
--     Parcels
--   internal/handlers/contents_handler.go: Contents (GetContents, CheckContentStatus)
--   data/redis.go: Redis (the server, a parameter with laws) and Redis.Client (the methods)
--   data/authorization.go, data/decentraland.go: Auth
--   utils/rpc/rpc.go: Rpc
--   utils/misc.go: Parcels
--   storage/storage.go, local.go, s3.go: Storage, with NewStorage in Storage.Build
--   config/config.go: Config
--   metrics/agent.go: Metrics, with the event of an upload in Metrics.Uploads
--   validation/validation.go: Validation
--   main.go, internal/routes/routes.go: Startup (InitializeHandler and the upload service that
--     AddRoutes makes) and Routes (the table of routes)
--   cmd/replication/replication.go: Replication
-- Redis.Types gives each key of the one keyspace the type of its value, and Upload.Invariant is the
-- interface of the properties that every write of an upload keeps.
-- Reachable is the server as a state machine: a step is one request that does not stop on the
-- way, at a failed write of Redis or by a panic, and the world that it leaves, and Reach a
-- sequence of them. Redis.Overlap has one order of the commands of two calls of one method.
-- A Go name in camel case has its counterpart in snake case. A function is an action on a state (Go):
-- it returns a value or an error, or panics, and what it wrote before an error stays written. World
-- puts the Redis server's state beside that of everything else. Http is a handler's answer.
--
-- Interfaces. The handlers use the Redis client; the client uses the commands of a RedisServer,
-- a record of operations and of what their documentation says of a successful command. In the
-- same way FileSystem, Storage, S3Client, IpfsNode, EthClient, LandApi, Crypto, Codec, Statsd,
-- Analytics, Viper and Source stand for the operating system, AWS, IPFS, Ethereum, the land
-- API, go-ethereum, JSON with validation and regular expressions, Datadog, Segment, viper, and
-- the server that is copied. Any operation may fail at any time; IsAnswering says of a Redis
-- server that it answers its reads. GivesCidsV0 says of the IPFS node that the CIDs that it
-- computes have version 0, so that a root CID, which ProcessUpload compares with a computed
-- one, is no other key of the keyspace; checkCIDFormat alone accepts more (Upload.Cids).
-- NeverPanics says of the clients of Datadog and Segment that they report failures as errors.
-- The text of an error leaves out what is printed of a cause in another library. MapRange is
-- the order in which a loop visits a map, which Go leaves open: the definitions take it as an
-- argument.
--
-- Machine integers: int and int64 are integers that wrap at 64 bits (wrap64), written where the code
-- computes. RectToParcels is the one loop without a structural bound: it runs on fuel, fuel_for
-- rounds. They are enough because each round moves the counter by one towards its bound and one
-- more round is left for the last test. Running out would count as a panic.
--
-- Not modelled: logging and the taking of times; the calls of the metrics agent inside the
-- handlers, which change no answer; gin's router, middleware and HTTP server; the registration
-- of rules and translations with the validator library; the prompts of the replication tool;
-- mocks and test helpers; the failure of `make` for want of memory; links between files; what a
-- request leaves that stops at a failed write of Redis. Except for one order of two overlapping
-- calls of SetSceneParcels, a request runs alone: what requests that overlap do to each other
-- is not modelled.
--
-- Examples holds a server, a disk and a service that are plain functions, and runs on them.
pub mod Prelude
pub mod Go
pub mod World
pub mod Http
pub mod Redis
pub mod Auth
pub mod Rpc
pub mod Parcels
pub mod Storage
pub mod Upload
pub mod Mappings
pub mod Contents
pub mod Metrics
pub mod Config
pub mod Replication
pub mod Reachable
pub mod Validation
pub mod Startup
pub mod Routes
pub mod Examples
