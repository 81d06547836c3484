-- ===== src/Lib.antt =====
-- The backend of memberclass: an HTTP API in Go with workers that poll tables of the database.
--
-- The parts that are modelled, and how they interact:
--
-- RateLimit: the cache on Redis (internal/infrastructure/adapters/cache/redis_cache.go), the three
-- limiters over it (internal/infrastructure/adapters/rate_limiter) and their middlewares
-- (internal/application/middlewares/rate_limit). RateLimit/Cache has the commands of the go-redis
-- client as a record, Redis, and what its documentation says of them as IsRedis; Tenant, Ip and Upload
-- hold the limiters, each method a function from the state of the server to an answer and a state;
-- Middleware holds LimitByTenant and LimitByIP, Upload the two middlewares of POST
-- /api/v1/videos/upload in the order in which internal/application/router/router.go stacks them.
--
-- Transcription: the worker of internal/features/workers/transcription. Jobs holds the SQL statements
-- on the table of jobs (sql.go) and the methods around them (worker_claim.go, processOne of worker.go),
-- each a function on the list of rows; Chunker holds splitIntoChunks (chunker.go). Pipeline holds
-- executeJob (pipeline.go): Execute has its steps in order over the record Outside, which stands for the
-- audio, the OpenAI calls, the clock, the random ids and the statements that fail. The transaction is
-- the tables put back where a step in it fails. embed_chunks has as much fuel as there are chunks, and
-- each round takes one at least. Enqueue holds enqueueSelectedLessons and enqueueAllUnprocessed
-- (process_lessons.go), whose queries and inserts that fail are the record Backend.
--
-- Notifications: the push worker of internal/features/workers/notifications. Notifications.antt has the
-- tables (types.go) and statements (repo.go), Recipients the queries of recipients.go, Render
-- renderForPush of render.go, Worker tick, dispatch and sendMulticast of worker.go. The Firebase client
-- and the statements that the database refuses are the record Remote; claimPending can also lose its
-- answer after the update. The loop over batches runs for at most as many rounds as there are batches in all;
-- it ends by its own test before they are used up. Cleanup holds pruneOldNotifications of cleanup.go,
-- with a fuel of the number of rows and one: each round but the last deletes 10000 rows.
--
-- Pagination: internal/domain/dto/pagination.go and
-- internal/domain/usecases/pagination/pagination_utils.go. Auth: the bearer middleware of
-- internal/application/middlewares/auth/auth_bearer_middleware.go, over the record Crypto (Bearer), the
-- keys of external clients (ApiKey: auth_external_middleware.go beside it, with
-- internal/domain/usecases/auth/api_token_usecase.go and its statements on tenants) and the sessions of
-- the front end (Session: auth_front_middleware.go, with internal/domain/usecases/user/validate_session.go).
-- Sso: the one-time tokens of internal/domain/usecases/sso/sso_usecase.go and
-- internal/infrastructure/adapters/repository/sso/sso_repository.go.
--
-- Import: documentVariants (internal/features/admin/member_import/cpf.go) and processBatch
-- (processor.go, in the same folder), whose calls on the database are the record Store.
--
-- Pdf: the pages of the documents of lessons. Pdf.antt has the tables and statements of
-- internal/infrastructure/adapters/repository/lesson, Pages and Process the use case of
-- internal/domain/usecases/lessons/pdf_processor_usecase.go, Cleanup its two clean-ups. Which statements
-- fail, the clock, the storage and the PDF service are the record Services. Workers take their jobs in
-- the order of a list, the context is not cancelled, and a page is looked up, uploaded and stored in one
-- step. Keys and Images hold the client of iLovePDF,
-- internal/infrastructure/adapters/external_services/ilovepdf/ilovepdf_service.go: the rotation of its
-- keys, over the cache of RateLimit/Cache, and the images in its answers.
--
-- A Go string is the list of its bytes, an int or int64 an integer with its overflow written out where
-- the code can reach it, an error a value. The time is an argument of what reads the clock. The other
-- loops are recursion on lists.
--
-- Not modelled: log lines, goroutines and their timers, JSON encoding, the text of SQL statements that
-- only read, HTTP handlers that only pass values on, and the requests to other systems.
pub mod Auth
pub mod Common
pub mod Import
pub mod Notifications
pub mod Pagination
pub mod Pdf
pub mod RateLimit
pub mod Sso
pub mod Transcription
