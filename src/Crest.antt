-- ===== src/Crest.antt =====
-- The HTTP service of src/utils/crest. The server itself, libmicrohttpd, is not in the repository.
pub mod Path
pub mod Router
pub mod Req
pub mod Resp
pub mod Service
pub mod Body
