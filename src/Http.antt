-- ===== src/Http.antt =====
-- src/httpparse.c: the parser of requests.
pub mod Step
pub mod Uri
pub mod RequestLine
pub mod HeaderLine
