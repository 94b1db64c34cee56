-- ===== src/Httpval.antt =====
-- httpval/: checks of single parts of a request. The IP blacklist is with the storage that it uses.
pub mod NestedDepth
pub mod Flags
pub mod Method
pub mod BodySize
pub mod ContentType
pub mod CsrfOrigin
pub mod CookieAttrs
pub mod Admission
mod Tests
