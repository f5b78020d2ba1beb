-- ===== src/Types.antt =====
-- src/server.h: the types of a request. The parser's two `int state` fields hold constants of one
-- enum; `LineState` has those of the request line and the header lines, which share
-- `sy_request_t.state`, and `UriState` those of `sy_uri_t.state`.
use sy_server.Base.{ℕ, Bool, ℤ}
use sy_server.Memory.{Str}
use sy_server.Buffer.{Buffer}

-- `invalid` is the value ERR_INVALID_METHOD, which the parser stores in the field before it
-- returns it.
pub data Method : Type 0 where
  connect delete get head options post put trace invalid : Method

pub data RequestStage : Type 0 where
  request_line headers body pass_headers pass_body : RequestStage

pub data TransferEncoding : Type 0 where
  identity chunked gzip compress deflate : TransferEncoding

pub record Version : Type 0 where
  pub major : ℕ
  pub minor : ℕ

pub data LineState : Type 0 where
  rl_begin rl_method rl_sp_before_uri rl_uri rl_sp_before_version : LineState
  rl_http_h rl_http_ht rl_http_htt rl_http_http : LineState
  rl_version_slash rl_version_major rl_version_dot rl_version_minor : LineState
  rl_sp_after_version rl_almost_done rl_done : LineState
  hl_begin hl_ignore hl_name hl_colon hl_sp_before_value hl_value : LineState
  hl_sp_after_value hl_almost_done hl_done : LineState

pub data UriState : Type 0 where
  uri_begin uri_scheme uri_scheme_colon uri_scheme_slash uri_scheme_slash_slash : UriState
  uri_host uri_port uri_dot uri_ddot uri_slash uri_entry uri_extension uri_query : UriState

pub record Uri : Type 0 where
  pub scheme : Str
  pub host : Str
  pub port : Str
  pub abs_path : Str
  pub extension : Str
  pub query : Str
  pub nddots : ℕ
  pub nentries : ℕ
  pub state : UriState

-- The members of `sy_request_headers_t`, in order. A pointer to a member is its `offset`.
pub data HeaderField : Type 0 where
  cache_control c date pragma trailer transfer_encoding upgrade via warning : HeaderField
  allow content_encoding content_language content_length content_location : HeaderField
  content_md5 content_range content_type expires last_modified : HeaderField
  accept accept_charset accept_encoding authorization cookie expect from host : HeaderField
  if_match if_modified_since if_none_match if_range if_unmodified_since : HeaderField
  max_forwards proxy_authorization range referer te user_agent : HeaderField

-- The functions that `in_handler` and `out_handler` point to.
pub data InHandler : Type 0 where
  handle_request_line handle_headers handle_body : InHandler

pub data OutHandler : Type 0 where
  send_response_buffer send_response_file : OutHandler

-- `sy_request_t`, without the list `accepts`. A connection is its address, 0 for none.
-- `resource_len` is the word of an `int`.
pub record Request : Type 0 where
  pub method : Method
  pub version : Version
  pub headers : HeaderField → Str
  pub state : LineState
  pub request_line : Str
  pub header_name : Str
  pub header_value : Str
  pub uri : Uri
  pub host : Str
  pub port : ℕ
  pub stage : RequestStage
  pub discard_body : Bool
  pub body_done : Bool
  pub done : Bool
  pub response_done : Bool
  pub keep_alive : Bool
  pub t_encoding : TransferEncoding
  pub content_length : ℤ
  pub body_received : ℕ
  pub rb : Buffer
  pub sb : Buffer
  pub c : ℕ
  pub uc : ℕ
  pub in_handler : InHandler
  pub out_handler : OutHandler
  pub status : ℕ
  pub resource_fd : ℤ
  pub resource_len : ℕ
