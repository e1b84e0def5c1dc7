-- ===== src/Aws.antt =====
-- awsbackend: the backend over the AWS SDK.
pub mod Translate
pub mod RoundTrip
pub mod Errors
