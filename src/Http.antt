-- ===== src/Http.antt =====
-- src/server/color_interceptor.* and src/client/color_http_client.*: the two cores over HTTP.
pub mod Headers
pub mod Fields
pub mod Interceptor
pub mod Restore
pub mod Held
pub mod Sender
pub mod Lines
pub mod Curl
pub mod Replies
pub mod Refusals
pub mod Attempts
