-- ===== src/Response.antt =====
-- src/response.c: the heads of responses and the pages of errors.
pub mod Text
pub mod Out
pub mod Build
pub mod Puts
pub mod Errors
pub mod Whole
pub mod Mime
