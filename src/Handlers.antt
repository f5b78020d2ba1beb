-- ===== src/Handlers.antt =====
-- src/request.c: a new request, and the handlers of its children.
pub mod Reading
pub mod Sending
pub mod Pending
pub mod FileSent
pub mod Taken
pub mod Responded
pub mod Completes
pub mod Upstream
use sy_server.Base.{ℕ, false, minus_one}
use sy_server.Memory.{null_str}
use sy_server.Buffer.{init}
use sy_server.Types.{
  get, rl_begin, request_line, identity, uri_begin, handle_request_line, send_response_buffer, Uri,
  Request,
}

-- `sy_uri_init`, which first fills the struct with zeros.
unfoldable pub uri_init : Uri
uri_init = record {
  scheme = null_str;
  host = null_str;
  port = null_str;
  abs_path = null_str;
  extension = null_str;
  query = null_str;
  nddots = 0;
  nentries = 0;
  state = uri_begin;
}

unfoldable pub request_init : Request → ℕ → Request
unfolding uri_init init
request_init r connection = record {
  method = get;
  version = record { major = 0; minor = 0 };
  headers = λ field. null_str;
  state = rl_begin;
  request_line = null_str;
  header_name = null_str;
  header_value = null_str;
  uri = uri_init;
  host = null_str;
  port = 80;
  stage = request_line;
  discard_body = false;
  body_done = false;
  done = false;
  response_done = false;
  keep_alive = false;
  t_encoding = identity;
  content_length = minus_one;
  body_received = 0;
  rb = init r.rb;
  sb = init r.sb;
  c = connection;
  uc = 0;
  in_handler = handle_request_line;
  out_handler = send_response_buffer;
  status = 200;
  resource_fd = minus_one;
  resource_len = 0;
}

unfoldable pub request_clear : Request → Request
unfolding request_init
request_clear r = record (request_init r r.c) { c = r.c; uc = r.uc }
