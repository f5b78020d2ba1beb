-- ===== src/Handlers/Reading/Outcomes.antt =====
-- What each handler leaves behind the code `ok`: the end of the request, or the handler to follow.
use sy_server.Base.{
  ℕ, zero, suc, ◌≡◌, ◌⊎◌, inl, inr, refl, subst, true, not, ◌||◌, ltb, Option, none, some, if_cases,
  ◌==◌, ℤ, arith,
}
use sy_server.Memory.{Memory}
use sy_server.Buffer.{Buffer}
use sy_server.Connection.{Connection}
use sy_server.Types.{HeaderField, InHandler, TransferEncoding, identity, Request}
use sy_server.Util.{Code, ok, again, empty_line}
use sy_server.Response.Build.{err_built, response_build_err}
use sy_server.Handlers.Sending.{is_open}
use sy_server.Handlers.Reading.{Processor, Location, System, World, err_returned, build_err}
use sy_server.Handlers.Reading.Resource.{
  take_host, with_uc, pass_on, serve_index, serve_opened, end_path, serve_file, located, handle_uri,
}
use sy_server.Handlers.Reading.Headers.{processed, identified, header_parsed, handle_headers_loop}
use sy_server.Handlers.Reading.Body.{
  parse_request_body_identity, stop_reading, body_read, to_upstream, body_parsed, body_for,
  returning, handle_body,
}
use sy_server.Handlers.Reading.Incoming.{line_parsed, at_headers}

-- If the code is `ok`, the world has the property.
abbrev pub OkAt : (World → Type 0) → Option (Code × World) → Type 0
OkAt P none = Unit {0}
OkAt P (some (ok, w)) = P w
OkAt P (some (_, w)) = Unit {0}

-- The request is over, or its next handler is `h`.
abbrev pub OverOrAt : InHandler → World → Type 0
OverOrAt h w = (w.request.body_done ≡ true) ⊎ (w.request.in_handler ≡ h)

err_returned-over :
    (w : World) (c : Connection) (err : ℕ) (h : InHandler) (result : Option (Memory × Buffer))
    → OkAt (OverOrAt h) (err_returned w (err_built w.request c err result))
err_returned-over w c err h none = tt
err_returned-over w c err h (some (m, b)) = inl refl

build_err-over :
    (sys : System) (w : World) (err : ℕ) (h : InHandler) → OkAt (OverOrAt h) (build_err sys w err)
unfolding build_err response_build_err
build_err-over sys w err h = err_returned-over w w.connection err h _

pass_on-at :
    (sys : System) (loc : Location) (w : World)
    → OkAt (OverOrAt w.request.in_handler) (pass_on sys loc w)
unfolding pass_on
pass_on-at sys loc w =
    if_cases (OkAt (OverOrAt w.request.in_handler)) ((sys.open_upstream loc).0 == 0)
      (λ _. build_err-over sys (with_uc w (sys.open_upstream loc).0) 503 w.request.in_handler)
      (λ _. inr refl)

serve_index-at :
    (sys : System) (w : World) (fd : ℤ)
    → OkAt (OverOrAt w.request.in_handler) (serve_index sys w fd)
serve_index-at sys w fd =
    if_cases (OkAt (OverOrAt w.request.in_handler)) (is_open fd) (λ _. inr refl)
      (λ _. build_err-over sys w 403 w.request.in_handler)

serve_opened-at :
    (sys : System) (w : World) (fd : ℤ)
    → OkAt (OverOrAt w.request.in_handler) (serve_opened sys w fd)
serve_opened-at sys w fd =
    let P = OkAt (OverOrAt w.request.in_handler) in
    if_cases P (is_open fd)
      (λ _.
        if_cases P (sys.is_dir fd) (λ _. serve_index-at sys w (sys.open_index fd)) (λ _. inr refl))
      (λ _. build_err-over sys w 404 w.request.in_handler)

serve_file-at : (sys : System) (w : World) → OkAt (OverOrAt w.request.in_handler) (serve_file sys w)
unfolding serve_file
serve_file-at sys w = serve_opened-at sys (end_path w) _

located-at :
    (sys : System) (w : World) (found : Option Location)
    → OkAt (OverOrAt w.request.in_handler) (located sys w found)
located-at sys w none = build_err-over sys w 404 w.request.in_handler
located-at sys w (some loc) =
    if_cases (OkAt (OverOrAt w.request.in_handler)) loc.pass (λ _. pass_on-at sys loc w)
      (λ _. serve_file-at sys w)

take_host-at :
    (sys : System) (m : Memory) (r : Request) → (take_host sys m r).in_handler ≡ r.in_handler
unfolding take_host
take_host-at sys m r = ground arith

handle_uri-at : (sys : System) (w : World) → OkAt (OverOrAt w.request.in_handler) (handle_uri sys w)
unfolding handle_uri
handle_uri-at sys w =
    let r = take_host sys w.memory w.request in
    subst (λ h. OkAt (OverOrAt h) (handle_uri sys w)) (take_host-at sys w.memory w.request)
      (located-at sys (record w { request = r }) _)

pub line_parsed-at :
    (sys : System) (w : World) (result : Option (Code × Request))
    → OkAt (OverOrAt InHandler.handle_headers) (line_parsed sys w result)
line_parsed-at sys w none = tt
line_parsed-at sys w (some (again, r)) = tt
line_parsed-at sys w (some (ok, r)) =
    if_cases (OkAt (OverOrAt InHandler.handle_headers))
      (not (r.version.major == 1) || ltb 2 r.version.minor)
      (λ _. build_err-over sys (record w { request = r }) 505 InHandler.handle_headers)
      (λ _. handle_uri-at sys (at_headers (record w { request = r })))
line_parsed-at sys w (some (_, r)) =
    build_err-over sys (record w { request = r }) 400 InHandler.handle_headers

-- Behind the headers comes the body.
abbrev pub AtBody : World → Type 0
AtBody w = w.request.in_handler ≡ InHandler.handle_body

processed-at :
    (next : World → Option (Code × World)) (result : Option (Code × World))
    → ((w : World) → OkAt AtBody (next w))
    → OkAt AtBody (processed next result)
processed-at next none rest = tt
processed-at next (some (ok, w)) rest = rest w
processed-at next (some (_, w)) rest = tt

identified-at :
    (next : World → Option (Code × World)) (sys : System) (w : World)
    (found : Option (Option (HeaderField × Processor)))
    → ((w : World) → OkAt AtBody (next w))
    → OkAt AtBody (identified next sys w found)
identified-at next sys w none rest = tt
identified-at next sys w (some none) rest = rest w
identified-at next sys w (some (some (field, p))) rest = processed-at next _ rest

header_parsed-at :
    (next : World → Option (Code × World)) (sys : System) (w : World)
    (result : Option (Code × Memory × Request))
    → ((w : World) → OkAt AtBody (next w))
    → OkAt AtBody (header_parsed next sys w result)
header_parsed-at next sys w none rest = tt
header_parsed-at next sys w (some (again, m, r)) rest = tt
header_parsed-at next sys w (some (empty_line, m, r)) rest = refl
header_parsed-at next sys w (some (ok, m, r)) rest = identified-at next sys _ _ rest
header_parsed-at next sys w (some (_, m, r)) rest = tt

pub handle_headers_loop-at :
    (n : ℕ) (sys : System) (w : World) → OkAt AtBody (handle_headers_loop n sys w)
unfolding handle_headers_loop
handle_headers_loop-at zero sys w = tt
handle_headers_loop-at (suc n) sys w =
    header_parsed-at (handle_headers_loop n sys) sys w _ (handle_headers_loop-at n sys)

-- Behind the body the request is over.
abbrev pub Over : World → Type 0
Over w = w.request.body_done ≡ true

err_returned-Over :
    (w : World) (c : Connection) (err : ℕ) (result : Option (Memory × Buffer))
    → OkAt Over (err_returned w (err_built w.request c err result))
err_returned-Over w c err none = tt
err_returned-Over w c err (some (m, b)) = refl

bad_request-Over : (sys : System) (w : World) → OkAt Over (build_err sys w 400)
unfolding build_err response_build_err
bad_request-Over sys w = err_returned-Over w w.connection 400 _

body_read-Over : (result : Option World) → OkAt Over (returning ok (body_read result))
body_read-Over none = tt
body_read-Over (some w) = refl

to_upstream-again : (result : Option World) → OkAt Over (returning again result)
to_upstream-again none = tt
to_upstream-again (some w) = tt

body_parsed-Over : (sys : System) (w : World) (code : Code) → OkAt Over (body_parsed sys w code)
body_parsed-Over sys w again = to_upstream-again (to_upstream w)
body_parsed-Over sys w ok = body_read-Over _
body_parsed-Over sys w _ = bad_request-Over sys w

pub handle_body-Over : (sys : System) (w : World) → OkAt Over (handle_body sys w)
unfolding handle_body
handle_body-Over sys w = go w.request.t_encoding
  where
    go : (te : TransferEncoding) → OkAt Over (body_for sys w te)
    go identity =
        let p = parse_request_body_identity w.request in
        body_parsed-Over sys (stop_reading (record w { request = p.1 })) p.0
    go _ = tt
