-- ===== src/S3.antt =====
-- internal/s3: the handlers of the S3 protocol.
pub mod Complete
pub mod Dispatch
pub mod Access
pub mod BucketName
