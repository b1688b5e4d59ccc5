-- ===== src/Lib.antt =====
-- Verification of the smusic backend (backend/, Go): the privacy of the presence feed, the sessions of
-- the authentication service, the catalog, the library and playback.
--
-- The program. Clients send positions over a WebSocket; the presence module stores them, displaced,
-- in Redis and answers with the users nearby, as far as both users' settings, consent, blocks and
-- rate limits allow. The settings are rows of Postgres that REST calls change. The authentication
-- module keeps users, devices and refresh tokens in Postgres; a refresh token is exchanged for a new
-- one at each use. The catalog keeps artists, albums and tracks and searches them page by page; the
-- library keeps playlists and saved tracks and asks the catalog whether a track exists; playback keeps
-- sessions with a queue in Redis and signs the links of the audio.
--
-- The files.
--   Prelude, Effect      shared names; actions with errors, state and an environment
--   Presence.Domain      backend/internal/presence/domain.go, bucket.go (BucketFor), geo.go, repo.go
--   Presence.World       the tables and Redis keys that the presence services share
--   Presence.Repo        backend/internal/presence/postgres/repo.go
--   Presence.GeoIndex    backend/internal/presence/redisstore/geoindex.go
--   Presence.RateLimit   backend/internal/presence/ratelimit.go, platform/cache/ratelimiter.go
--   Presence.Settings    backend/internal/presence/settings_service.go: Get is `get`, Update is
--                        `update`, and so on; `Call`, `serve` and `run` are any sequence of calls
--   Presence.Nearby      backend/internal/presence/nearby_service.go: ApplyUpdate is `apply_update`,
--                        ApplyHeartbeat is `apply_heartbeat`; query is split into its loops
--   Presence.Hub         backend/internal/presence/hub.go: enqueue, worker (`work`), process, Register,
--                        Unregister, SendResync and Shutdown; Presence.Hub.Events is any run of them
--   Auth.Domain          backend/internal/auth/domain.go and the types of service.go
--   Auth.Repo            backend/internal/auth/postgres/repo.go
--   Auth.Service         backend/internal/auth/service.go; Auth.Calls is any sequence of its calls
--   Auth.Mfa             backend/internal/auth/mfa/totp.go and mfa/postgres/repo.go, with EnrollMFA,
--                        VerifyMFA and HasVerifiedMFA of service.go
--   Paging               the pages of the lists in catalog/postgres/repo.go and library/postgres/repo.go
--                        of backend/internal, and a client that follows their cursors
--   Catalog              backend/internal/catalog: Domain is domain.go, Repo is postgres/repo.go on the
--                        Tables, Service is service.go; Calls is any sequence of its calls
--   Library              backend/internal/library, in the same way
--   Playback             backend/internal/playback: Domain is domain.go, repo.go and
--                        redisstore/store.go, Service is service.go, Resolver is media/resolver.go
--   *.Tests, *.HubTests, *.MfaTests, Library.Examples   concrete runs
--
-- The model. A method is an action: from a state to a value or an error, and a state in either case.
-- The state holds the tables and a count of the interactions with the outside. An environment gives
-- the clock, the next identifier and whether the call fails, for each interaction, so a theorem that
-- holds for every environment holds for every pattern of failures and of times. A failed statement
-- writes nothing; what earlier statements of the same method wrote stays, as in the program. The
-- errors keep the sentinels; other errors are one constructor with the outermost context. The
-- service modules take what they get from outside as parameters: the arithmetic of float64, the
-- random displacement, profiles, password hashing, token signing and random tokens, OAuth, Go's
-- string functions, the similarity of texts, how the database sorts, and the text of cursors. The
-- program's loops run over lists; only the client that follows cursors runs on fuel, and one call more
-- than there are rows is enough for it.
--
-- Not modelled: JSON and HTTP, connections and their goroutines, SQL itself and other writers between
-- two statements of one call, the retry-after duration of the limiter, the waiting of the hub's
-- goroutines, the WebSocket transport, and the middleware. Identifiers are any texts: that Postgres
-- refuses a text that is no UUID is left out. A rating of tracks that nothing writes is left out too.
pub mod Prelude
pub mod Effect
pub mod Presence
pub mod Auth
pub mod Catalog
pub mod Library
pub mod Paging
pub mod Playback
