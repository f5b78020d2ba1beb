-- ===== src/Tests/Data.antt =====
-- A memory, a buffer and a request for the examples.
use sy_server.Base.{ℕ, ◌+◌, List, length, minus_one, false}
use sy_server.Memory.{Memory, null_str, store}
use sy_server.Buffer.{Buffer}
use sy_server.Types.{
  get, request_line, identity, rl_begin, uri_begin, handle_request_line, send_response_buffer, Uri,
  Request,
}

abbrev pub blank : Memory
blank = λ a. 0

-- An array of 2048 bytes at address 1000, with `n` bytes in it.
abbrev pub buffer : ℕ → Buffer
buffer n = record { begin = 1000; end = 1000 + n; limit = 3048; start = 1000 }

-- The same at address 4000.
abbrev pub other : ℕ → Buffer
other n = record { begin = 4000; end = 4000 + n; limit = 6048; start = 4000 }

abbrev pub no_uri : Uri
no_uri = record {
  scheme = null_str;
  host = null_str;
  port = null_str;
  abs_path = null_str;
  extension = null_str;
  query = null_str;
  nddots = 0;
  nentries = 0;
  state = uri_begin;
}

-- What `sy_request_init` makes, with `n` bytes received.
abbrev pub fresh : ℕ → Request
fresh n = record {
  method = get;
  version = record { major = 0; minor = 0 };
  headers = λ h. null_str;
  state = rl_begin;
  request_line = null_str;
  header_name = null_str;
  header_value = null_str;
  uri = no_uri;
  host = null_str;
  port = 80;
  stage = request_line;
  discard_body = false;
  body_done = false;
  done = false;
  response_done = false;
  keep_alive = false;
  t_encoding = identity;
  content_length = minus_one;
  body_received = 0;
  rb = buffer n;
  sb = other 0;
  c = 1;
  uc = 0;
  in_handler = handle_request_line;
  out_handler = send_response_buffer;
  status = 200;
  resource_fd = minus_one;
  resource_len = 0;
}

-- The memory with a text at the start of the buffer.
abbrev pub holding : List ℕ → Memory
holding text = store blank 1000 text

-- A request for it.
abbrev pub requesting : List ℕ → Request
requesting text = fresh (length text)
