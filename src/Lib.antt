-- ===== src/Lib.antt =====
-- fbs-core, an S3-compatible object store in Go: a model of its core and what is proved of it.
--
-- A request is routed (internal/s3/dispatch.go), its principal identified (internal/auth) and its
-- access decided (internal/authz); the handlers of internal/s3 read and write the tables of
-- internal/metadata, with a cache in front of them, and the files of internal/storage.
--
-- Files and code:
--   Base                  shared names, lists, byte strings, results, integers
--   Iam                   internal/iam/iam.go: roles, actions (ParseRole, ParseGrantableAction)
--   Auth                  internal/auth: the principal; Chain is authenticator.go, Bearer is
--                         bearer.go, Secret has hashSecret and verifySecret of token.go
--   Auth/SigV4            internal/auth/sigv4.go: Clock has the timestamps, Request what is read of
--                         a request, Uri uriEncode, Canonical the canonical request and the
--                         signature, Header the Authorization header, Verify the authenticator,
--                         Sign SignRequestAt and PresignRequest; the other modules hold theorems
--   Authz                 internal/authz: Evaluator.Allow; Decision, Limits and Failure hold its
--                         theorems
--   Metadata/Model        the rows of internal/metadata
--   Metadata/Cache        internal/metadata/cache.go, cache_publication.go: Ops has the operations,
--                         World the interleavings of cached reads and writes
--   Metadata/Objects      internal/metadata/objects.go, object_replace.go: rows, preconditions
--   Metadata/Listing      List of objects.go: a page of the objects of a bucket
--   Metadata/Buckets      internal/metadata/bucket_cleanup.go: DeleteWithObjects; Rows is
--                         bucket.go, and Owner the transfer of a bucket
--   Metadata/Grants       internal/metadata/grant.go: grants, with the partial unique index of
--                         migrations/migration.go
--   Metadata/Users        internal/metadata/user.go: users, the first user
--   Metadata/Multipart    internal/metadata/multipart.go: uploads, claims, parts, completion;
--                         Steps has the transactions that may run beside a claim
--   ObjectOps             internal/objectops/cleanup.go: ListAllObjects, DeleteObject, EmptyBucket;
--                         Put is PutObject of internal/s3/object_handlers.go, Runs the requests
--                         that follow one another
--   ShareLinks            internal/metadata/share_link.go, internal/sharelink/code.go, and
--                         insertShareLink of internal/management/share_links.go; Read is
--                         internal/s3/share_link_read.go
--   PublicRead            internal/publicread/signer.go: the signed paths of objects; Verify has
--                         the theorem
--   S3/Complete           internal/s3/multipart_complete.go: the parts of a completed upload
--   S3/Dispatch           internal/s3/dispatch.go: which handler a request reaches
--   S3/Access             internal/s3/access.go: the guards of a request, on top of Authz
--   S3/BucketName         internal/s3/bucket_create.go: validateBucketName
--   Storage               internal/storage/sanitize.go, with Clean, Join, Abs and Rel of
--                         path/filepath (Paths) and utf8.ValidString (Utf8)
--
-- Conventions. A Go string is the list of its bytes; ToLower and EqualFold are modelled on ASCII. A
-- value and an error are a `Result`, a nil pointer is `none`, a time is a number with 0 the zero
-- time. An SQL statement is a function on the list of rows, in the order of insertion, and a
-- transaction a function that leaves the tables alone when it fails; errors of the engine,
-- cancellation of a context and logging are not modelled. A method that holds a mutex is one step.
-- The cache's map is read off its list; a nil cache or a limit that is not positive is limit 0. Its
-- revision wraps at 2^64, so the theorem about interleavings asks for fewer steps than that. The
-- loop that evicts runs on the length of the list, which is enough as each round drops an element.
--
-- The clock of a signed request (Auth/SigV4) is what a time shows in its own zone, and an instant in
-- nanoseconds since the start of the year -400; a difference of two instants stops at the bounds of
-- an int64 and its negation wraps, as in Go. A header is read under its canonical name. The query of a
-- request is the map that ParseQuery makes of it. PresignRequest takes its duration in whole seconds.
-- The loop over the pages of a bucket (ObjectOps) runs on the number of objects and one more, which
-- is enough as each page but the last drops an object. There the disk is the list of the paths that
-- have a file, deletions may fail for any path, and requests follow one another without overlap.
--
-- SHA-256, HMAC, the parser of an HTTP date, the clock, the random source of codes, the grant store of
-- an evaluator, the repositories that a guard or an authenticator asks, and what a put is told of its
-- body are parameters.
--
-- Not modelled: the HTTP and JSON layers, the configuration, the migrations, the foreign keys of
-- the tables but those of a grant, a bucket and an upload, the primary key of an object, reading
-- rows back from SQL, and the parts of the handlers that only move bytes.
pub mod Base
pub mod Iam
pub mod Auth
pub mod Authz
pub mod Metadata
pub mod ObjectOps
pub mod S3
pub mod PublicRead
pub mod ShareLinks
pub mod Storage
