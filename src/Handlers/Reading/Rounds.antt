-- ===== src/Handlers/Reading/Rounds.antt =====
-- The loops of the handlers come to an end: more rounds than they have change nothing.
use sy_server.Base.{
  ℕ, zero, suc, ◌+◌, ◌<◌, ◌≡◌, refl, sym, ap, ◌∙◌, subst, true, Option, none, some, if_cases, ◌==◌,
  arith, ℤ, pos, negsuc,
}
use sy_server.Memory.{Memory}
use sy_server.Buffer.{Buffer, size}
use sy_server.Connection.{Connection}
use sy_server.Types.{InHandler, HeaderField, TransferEncoding, Request}
use sy_server.Util.{Code, ok, again}
use sy_server.Http.HeaderLine.{parse_header_line}
use sy_server.Http.HeaderLine.Outcome.{
  in_header_line, Ended, unfinished, finished, parse_header_line-Ended,
}
use sy_server.Response.Build.{err_built, response_build_err}
use sy_server.Handlers.Reading.{
  Processor, hop, t_encoding, body_length, System, World, err_returned, build_err,
}
use sy_server.Handlers.Reading.Runs.{Run, Turn, last, further, Run-Turn}
use sy_server.Handlers.Reading.Headers.{
  handle_generic, handle_connection, handle_t_encoding, encoded, handle_content_length, with_length,
  process, processed, identified, header_parsed, handle_headers_loop,
}

-- What no processor changes: the receive buffer and the states of the machines.
abbrev pub SameReading : World → World → Type 0
SameReading w w' =
    (w'.request.rb ≡ w.request.rb)
    × (w'.request.state ≡ w.request.state)
    × (w'.request.in_handler ≡ w.request.in_handler)

-- The outcome is a failed `assert`, or the code `ok` with the reading as it was.
abbrev pub Continues : World → Option (Code × World) → Type 0
Continues w none = Unit {0}
Continues w (some (code, w')) = (code ≡ ok) × SameReading w w'

err_returned-Continues :
    (w : World) (c : Connection) (err : ℕ) (result : Option (Memory × Buffer))
    → Continues w (err_returned w (err_built w.request c err result))
err_returned-Continues w c err none = tt
err_returned-Continues w c err (some (m, b)) = (refl, (refl, refl, refl))

build_err-Continues : (sys : System) (w : World) (err : ℕ) → Continues w (build_err sys w err)
unfolding build_err response_build_err
build_err-Continues sys w err = err_returned-Continues w w.connection err _

encoded-Continues :
    (sys : System) (w : World) (te : Option TransferEncoding) → Continues w (encoded sys w te)
encoded-Continues sys w none = build_err-Continues sys w 415
encoded-Continues sys w (some te) = (refl, (refl, refl, refl))

with_length-Continues : (sys : System) (w : World) (len : ℤ) → Continues w (with_length sys w len)
with_length-Continues sys w (pos n) = (refl, (refl, refl, refl))
with_length-Continues sys w (negsuc n) = build_err-Continues sys w 400

process-Continues :
    (sys : System) (p : Processor) (field : HeaderField) (w : World)
    → Continues w (process sys p field w)
unfolding process handle_connection handle_generic handle_t_encoding handle_content_length
process-Continues sys hop field w = (refl, ground arith)
process-Continues sys t_encoding field w = encoded-Continues sys (handle_generic field w) _
process-Continues sys body_length field w = with_length-Continues sys (handle_generic field w) _
process-Continues sys _ field w = (refl, (refl, refl, refl))

-- What is left behind a line of the headers of `w`: the next line, in a shorter buffer.
abbrev pub Shorter : World → World → Type 0
Shorter w v = (in_header_line v.request.state ≡ true) × (size v.request.rb < size w.request.rb)

processed-Turn :
    (w v : World) (result : Option (Code × World))
    → Shorter w v
    → Continues v result
    → Turn (Shorter w) (λ next. processed next result)
processed-Turn w v none (i, lt) k = last none (λ next. refl)
processed-Turn w v (some (ok, u)) (i, lt) (e, (b, s, h)) =
    further u (ap in_header_line s ∙ i, subst (λ x. size x < size w.request.rb) (sym b) lt)
      (λ next. refl)
processed-Turn w v (some (code, u)) short k = last (some (code, u)) (λ next. refl)

identified-Turn :
    (sys : System) (w v : World) (found : Option (Option (HeaderField × Processor)))
    → Shorter w v
    → Turn (Shorter w) (λ next. identified next sys v found)
identified-Turn sys w v none short = last none (λ next. refl)
identified-Turn sys w v (some none) short = further v short (λ next. refl)
identified-Turn sys w v (some (some (field, p))) short =
    processed-Turn w v (process sys p field v) short (process-Continues sys p field v)

header_parsed-Turn :
    (sys : System) (w : World) (result : Option (Code × Memory × Request))
    → Ended w.memory w.request w.request.rb.begin (size w.request.rb) result
    → Turn (Shorter w) (λ next. header_parsed next sys w result)
header_parsed-Turn sys w _ (unfinished m r n s i) =
    last (some (again, record w { memory = m; request = r })) (λ next. refl)
header_parsed-Turn sys w _ (finished m r q a b f n s g) =
    let v = record w { memory = m; request = r } in
    let e : r.rb ≡ record w.request.rb { begin = q + 1 } = ap (λ (t : Request). t.rb) s in
    let lt : size v.request.rb < size w.request.rb =
      subst (λ x. size x < size w.request.rb) (sym e) (omega arith) in
    if_cases (λ code. Turn (Shorter w) (λ next. header_parsed next sys w (some (code, m, r))))
      (r.header_name.addr == 0)
      (λ _.
        last (some (ok, record v { request = record r { in_handler = InHandler.handle_body } }))
          (λ next. refl))
      (λ _. identified-Turn sys w v _ (ap in_header_line g, lt))

-- A round of the loop of `handle_headers`, `next` being what the rounds behind it do.
abbrev pub headers_round : System → (World → Option (Code × World)) → World → Option (Code × World)
headers_round sys next w = header_parsed next sys w (parse_header_line w.memory w.request)

-- From every state among the headers the loop of `handle_headers` without a bound has a finite run,
-- and its result is that of the loop with any bound above the number of bytes in the receive
-- buffer: such a bound is never what ends it.
pub handle_headers_loop-Run :
    (n : ℕ) (sys : System) (w : World)
    → in_header_line w.request.state ≡ true
    → size w.request.rb < n
    → Run (headers_round sys) w (handle_headers_loop n sys w)
unfolding handle_headers_loop
handle_headers_loop-Run zero sys w i lt = absurd (omega arith)
handle_headers_loop-Run (suc n) sys w i lt =
    Run-Turn (Shorter w) (headers_round sys) (handle_headers_loop n sys) w
      (header_parsed-Turn sys w (parse_header_line w.memory w.request)
        (parse_header_line-Ended w.memory w.request i))
      (λ v (j, less). handle_headers_loop-Run n sys v j (omega arith))
