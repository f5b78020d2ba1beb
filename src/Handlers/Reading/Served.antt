-- ===== src/Handlers/Reading/Served.antt =====
-- A request for a file that has been received as a whole, from its first byte to the response.
use sy_server.Base.{
  ℕ, suc, ◌+◌, ◌≤◌, ◌≡◌, refl, ap, ◌∙◌, ◌==◌, ◌||◌, true, false, not, ltb, ℤ, minus_one, Option,
  none, some, eq→==, if◌then◌else◌, arith,
}
use sy_server.Memory.{Memory, Str, write}
use sy_server.Buffer.{clear}
use sy_server.Connection.{disable_in, enable_out}
use sy_server.Types.{TransferEncoding, InHandler, Version, Request}
use sy_server.Util.{Code, ok}
use sy_server.Http.RequestLine.{parse_request_line}
use sy_server.Response.Build.{response_build}
use sy_server.Handlers.Sending.{is_open}
use sy_server.Handlers.Reading.{Location, System, World, build_err}
use sy_server.Handlers.Reading.Resource.{
  serve_index, match_location, take_host, with_resource, end_path, serve_file, pass_on, located,
  handle_uri,
}
use sy_server.Handlers.Reading.Body.{
  body_of, parse_request_body_identity, stop_reading, respond_here, response_ready, to_upstream,
  body_read, body_parsed, body_for, returning, handle_body,
}
use sy_server.Handlers.Reading.Incoming.{
  at_headers, line_parsed, handle_request_line, call_in_handler, loop_on, handle_request_loop,
}

-- The file that is opened for the path at an address.
abbrev pub opened : System → Memory → Str → ℤ
opened sys m path =
    sys.open_file (write m (path.addr + path.len) 0)
      (if path.len == 1 then none else some (path.addr + 1))

-- What is asked of the configuration and the file system for a path: a location that serves files,
-- and a file that is no directory.
pub record IsFile (sys : System) (m : Memory) (path : Str) (loc : Location) : Type 0 where
  pub found : match_location sys m path sys.locations ≡ some loc
  pub no_pass : loc.pass ≡ false
  pub exists : is_open (opened sys m path) ≡ true
  pub no_dir : sys.is_dir (opened sys m path) ≡ false

-- The world behind the request line.
abbrev pub with_file : System → World → World
with_file sys w =
    let fd = opened sys w.memory w.request.uri.abs_path in
    with_resource (end_path w) fd (sys.file_size fd)

handle_uri-file :
    (sys : System) (w : World) (loc : Location)
    → w.request.uri.host.addr ≡ 0
    → IsFile sys w.memory w.request.uri.abs_path loc
    → handle_uri sys w ≡ some (ok, with_file sys w)
unfolding handle_uri take_host serve_file
handle_uri-file sys w loc host file =
    let r = w.request in
    let fd = opened sys w.memory r.uri.abs_path in
    let same : take_host sys w.memory r ≡ r = rw (eq→== r.uri.host.addr 0 host) refl in
    ap
      (λ (x : Request).
        located sys (record w { request = x })
          (match_location sys w.memory x.uri.abs_path sys.locations))
      same
    ∙ ap (located sys w) file.found
    ∙ ap (λ b. if b then pass_on sys loc w else serve_file sys w) file.no_pass
    ∙ ap
        (λ b.
          if b
          then (if sys.is_dir fd then serve_index_of sys w fd else some (ok, with_file sys w))
          else build_err sys (end_path w) 404)
        file.exists
    ∙ ap (λ b. if b then serve_index_of sys w fd else some (ok, with_file sys w)) file.no_dir
  where
    serve_index_of : System → World → ℤ → Option (Code × World)
    serve_index_of sys w fd = serve_index sys (end_path w) (sys.open_index fd)

-- A request line of version 1.0 to 1.2 for such a file.
pub handle_request_line-file :
    (sys : System) (w : World) (r : Request) (v : ℕ) (loc : Location)
    → parse_request_line w.memory w.request ≡ some (ok, r)
    → r.version ≡ record { major = 1; minor = v }
    → v ≤ 2
    → r.uri.host.addr ≡ 0
    → IsFile sys w.memory r.uri.abs_path loc
    → handle_request_line sys w ≡ some (ok, with_file sys (at_headers (record w { request = r })))
unfolding handle_request_line
handle_request_line-file sys w r v loc parsed version le host file =
    let w' = record w { request = r } in
    let known : (not (r.version.major == 1) || ltb 2 r.version.minor) ≡ false =
      ap (λ (x : Version). not (x.major == 1) || ltb 2 x.minor) version ∙ ground arith in
    ap (line_parsed sys w) parsed
    ∙ ap (λ b. if b then build_err sys w' 505 else handle_uri sys (at_headers w')) known
    ∙ handle_uri-file sys (at_headers w') loc host file

-- The world behind the body of a request that has none.
abbrev pub answered : World → Memory → Request → World
answered w m r = record w {
  memory = m;
  request = record r {
    rb = clear r.rb;
    body_done = true;
    in_handler = InHandler.handle_request_line;
  };
  connection = enable_out (disable_in w.connection);
}

pub handle_body-none :
    (sys : System) (w : World) (m : Memory) (r : Request)
    → w.request.t_encoding ≡ TransferEncoding.identity
    → w.request.content_length ≡ minus_one
    → w.request.uc ≡ 0
    → response_build sys.date sys.mime w.memory w.request ≡ some (m, r)
    → handle_body sys w ≡ some (ok, answered w m r)
unfolding handle_body parse_request_body_identity respond_here
handle_body-none sys w m r te len uc built =
    let s = stop_reading w in
    ap (body_for sys w) te
    ∙ ap
        (λ n.
          let p = body_of n w.request in
          body_parsed sys (stop_reading (record w { request = p.1 })) p.0)
        len
    ∙ ap (λ b. returning ok (body_read (if b then respond_here sys s else to_upstream s)))
        (eq→== w.request.uc 0 uc)
    ∙ ap (λ x. returning ok (body_read (response_ready s x))) built

-- The rounds of the loop.
pub round_on :
    (n : ℕ) (sys : System) (w w' : World)
    → call_in_handler w.request.in_handler sys w ≡ some (ok, w')
    → w'.request.body_done ≡ false
    → handle_request_loop (suc n) sys w ≡ handle_request_loop n sys w'
unfolding handle_request_loop
round_on n sys w w' called more =
    ap (loop_on (handle_request_loop n sys)) called
    ∙ ap (λ b. elim (not b) [ true ↦ handle_request_loop n sys w' | false ↦ some (ok, w') ]) more

pub round_last :
    (n : ℕ) (sys : System) (w w' : World)
    → call_in_handler w.request.in_handler sys w ≡ some (ok, w')
    → w'.request.body_done ≡ true
    → handle_request_loop (suc n) sys w ≡ some (ok, w')
unfolding handle_request_loop
round_last n sys w w' called over =
    ap (loop_on (handle_request_loop n sys)) called
    ∙ ap (λ b. elim (not b) [ true ↦ handle_request_loop n sys w' | false ↦ some (ok, w') ]) over
