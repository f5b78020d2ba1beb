-- ===== src/Handlers/Upstream.antt =====
-- The handlers of an upstream in src/request.c: `sy_handle_pass` hands the request on, and
-- `sy_handle_upstream` takes the response.
use sy_server.Base.{
  ◌⊎◌, append-nil, ℕ, ◌-◌, ◌≤◌, ◌<◌, ◌≡◌, ◌≢◌, refl, ap, ◌∙◌, ◌++◌, Option, none, some, List, [],
  length, inl, inr, arith,
}
use sy_server.Memory.{bytes, Memory}
use sy_server.Buffer.{init, size, Buffer, IsBuffer, Arrival, Departure, recv, send, clear, contents}
use sy_server.Buffer.Words.{Appends}
use sy_server.Buffer.Recv.{now_read, recv_code, recv-Received}
use sy_server.Buffer.Send.{capacity, Sent, send-Sent}
use sy_server.Connection.{enable_in, enable_out, disable_out}
use sy_server.Util.{Code, ok, again, error}
use sy_server.Handlers.Reading.{System, World, build_err}

abbrev pub with_rb : World → Buffer → World
with_rb w b = record w { request = record w.request { rb = b } }

abbrev pub with_sb : World → Memory → Buffer → World
with_sb w m b = record w { memory = m; request = record w.request { sb = b } }

-- The code that a handler returns behind the response to an error.
abbrev pub failing : Option (Code × World) → Option (Code × World)
failing none = none
failing (some (code, w)) = some (error, w)

abbrev pub sending : List ℕ → Option (Code × World) → Option (Code × List ℕ × World)
sending out none = none
sending out (some (code, w)) = some (code, out, w)

abbrev pub pass_sent : System → World → Code × List ℕ × Buffer → Option (Code × List ℕ × World)
pass_sent sys w (ok, out, b) = some (
  ok,
  out,
  record (with_rb w (clear b)) {
    connection = enable_in w.connection;
    upstream = disable_out w.upstream;
  },
)
pass_sent sys w (error, out, b) = sending out (failing (build_err sys (with_rb w b) 503))
pass_sent sys w (code, out, b) = some (code, out, with_rb w b)

-- The code, what the kernel took, and the world.
unfoldable pub handle_pass : List Departure → System → World → Option (Code × List ℕ × World)
unfolding send clear enable_in disable_out build_err
handle_pass answers sys w = pass_sent sys w (send answers w.memory w.request.rb)

abbrev pub upstream_received :
    System → World → Code × List Arrival × Memory × Buffer → Option (Code × World)
upstream_received sys w (ok, later, m, b) = some (error, with_sb w m b)
upstream_received sys w (error, later, m, b) = failing (build_err sys (with_sb w m b) 503)
upstream_received sys w (code, later, m, b) =
    some (code, record (with_sb w m b) { connection = enable_out w.connection })

unfoldable pub handle_upstream : List Arrival → System → World → Option (Code × World)
unfolding recv enable_out build_err
handle_upstream answers sys w = upstream_received sys w (recv answers w.memory w.request.sb)

-- What `sy_handle_pass` makes of a request, with `out` for what the kernel took: all of it, where it
-- takes as much, and the client may send more, or a part, and the rest waits.
abbrev pub Passed : World → List Departure → Code × List ℕ × World → Type 0
Passed w answers (code, out, w') =
    (out ++ contents w'.memory w'.request.rb ≡ contents w.memory w.request.rb)
    × ((size w.request.rb ≤ capacity answers)
          × (code ≡ ok)
          × (contents w'.memory w'.request.rb ≡ [])
          × (w'.connection ≡ enable_in w.connection)
          × (w'.upstream ≡ disable_out w.upstream)
        ⊎ (capacity answers < size w.request.rb)
          × (code ≢ ok)
          × (size w'.request.rb ≡ size w.request.rb - capacity answers)
          × (w'.connection ≡ w.connection)
          × (w'.upstream ≡ w.upstream))

clear-contents : (m : Memory) (b : Buffer) → contents m (clear b) ≡ []
unfolding clear init
clear-contents m b = let z : b.start - b.start ≡ 0 = omega arith in ap (bytes m b.start) z

pass_sent-Passed :
    (answers : List Departure) (sys : System) (w : World) (r : Code × List ℕ × Buffer)
    → Sent w.memory w.request.rb answers r
    → r.0 ≢ error
    → (code : Code) × (out : List ℕ) × (w' : World) × (pass_sent sys w r ≡ some (code, out, w'))
      × Passed w answers (code, out, w')
pass_sent-Passed answers sys w (ok, out, b) (inl (room, _, all, _)) fine = (
  ok,
  out,
  record (with_rb w (clear b)) {
    connection = enable_in w.connection;
    upstream = disable_out w.upstream;
  },
  refl,
  (
    ap (λ rest. out ++ rest) (clear-contents w.memory b) ∙ append-nil out ∙ all,
    inl (room, refl, clear-contents w.memory b, refl, refl),
  ),
)
pass_sent-Passed answers sys w (ok, out, b) (inr (_, ne, _, _, _)) fine = absurd (ne refl)
pass_sent-Passed answers sys w (error, out, b) sent fine = absurd (fine refl)
pass_sent-Passed answers sys w (code, out, b) (inl (_, is_ok, _, _)) fine = cc
pass_sent-Passed answers sys w (code, out, b) (inr (less, ne, whole, _, left)) fine =
    (code, out, with_rb w b, refl, (whole, inr (less, ne, left, refl, refl)))

-- `sy_handle_pass`, where the upstream is not broken, hands the received bytes on in order and loses
-- none: what the kernel took and what is left in the buffer are the old contents. If the kernel
-- takes as many bytes as there are, the code is `ok`, nothing is left, and the client's side is
-- watched for input again and the upstream no more for output. Otherwise the code is another one,
-- only what the kernel took is gone, and neither watch changes.
pub handle_pass-Passed :
    (answers : List Departure) (sys : System) (w : World)
    → IsBuffer w.request.rb
    → (send answers w.memory w.request.rb).0 ≢ error
    → (code : Code) × (out : List ℕ) × (w' : World) × (handle_pass answers sys w
        ≡ some (code, out, w'))
      × Passed w answers (code, out, w')
unfolding handle_pass
handle_pass-Passed answers sys w valid fine =
    pass_sent-Passed answers sys w (send answers w.memory w.request.rb)
      (send-Sent answers w.memory w.request.rb valid) fine

-- `sy_handle_upstream`, where the upstream neither ends nor breaks, appends the bytes that it can
-- read to the send buffer, in order and as far as there is room, and the client's side is watched
-- for output.
pub handle_upstream-Appends :
    (answers : List Arrival) (sys : System) (w : World)
    → IsBuffer w.request.sb
    → recv_code w.request.sb answers ≡ again
    → (m' : Memory) × (b : Buffer) × (handle_upstream answers sys w
        ≡ some (again, record (with_sb w m' b) { connection = enable_out w.connection }))
      × Appends w.memory w.request.sb
          (now_read w.request.sb answers)
          (length (now_read w.request.sb answers))
          m'
          b
unfolding handle_upstream
handle_upstream-Appends answers sys w valid more =
    let got = recv answers w.memory w.request.sb in
    let is = recv-Received answers w.memory w.request.sb valid in
    (
      got.2,
      got.3,
      ap (λ code. upstream_received sys w (code, got.1, got.2, got.3)) (is.code_is ∙ more),
      is.appended,
    )
