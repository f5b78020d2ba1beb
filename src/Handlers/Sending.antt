-- ===== src/Handlers/Sending.antt =====
-- The handlers of src/request.c that send a response: its head from the buffer `sb`, and then the
-- resource from its file.
use sy_server.Base.{
  ℕ, zero, suc, ◌==◌, Bool, true, false, not, ◌&&◌, ℤ, negsuc, minus_one, Option, none, some, List,
  [], ◌∷◌, ◌++◌, length, take, drop, if◌then◌else◌,
}
use sy_server.Memory.{Memory}
use sy_server.Buffer.{Buffer, Departure, send, clear}
use sy_server.Connection.{Connection, disable_out, enable_in}
use sy_server.Types.{OutHandler, Request}
use sy_server.Util.{Code, ok, again, error, min, to_size}
use sy_server.Handlers.{request_clear}

-- What a handler changes: `file` is what `sendfile` has not read of the resource, and `out` all
-- that the kernel took.
pub record Sender : Type 0 where
  pub connection : Connection
  pub request : Request
  pub file : List ℕ
  pub out : List ℕ

-- `!= -1`
abbrev pub is_open : ℤ → Bool
is_open (negsuc zero) = false
is_open fd = true

-- What `sy_send_response_buffer` makes of the result of `sy_buffer_send`.
unfoldable pub buffer_sent : Sender → Code × List ℕ × Buffer → Code × Sender
unfolding clear disable_out
buffer_sent s (ok, taken, b) =
    let r = record s.request { sb = clear b } in
    let t = record s { request = r; out = s.out ++ taken } in
    if not (r.uc == 0)
    then (again, t)
    else if is_open r.resource_fd
    then (ok, record t { request = record r { out_handler = OutHandler.send_response_file } })
    else (
      ok,
      record t {
        connection = disable_out s.connection;
        request = record r { response_done = true };
      },
    )
buffer_sent s (error, taken, b) =
    (error, record s { request = record s.request { sb = b }; out = s.out ++ taken })
buffer_sent s (_, taken, b) =
    (again, record s { request = record s.request { sb = b }; out = s.out ++ taken })

unfoldable pub send_response_buffer : List Departure → Memory → Sender → Code × Sender
unfolding send buffer_sent
send_response_buffer answers m s = buffer_sent s (send answers m s.request.sb)

-- `moved n`: the kernel moves `n + 1` bytes, or all that there are and that it is asked for.
pub data FileAnswer : Type 0 where
  moved : ℕ → FileAnswer
  would_block : FileAnswer
  broken : FileAnswer

abbrev pub file_done : Sender → Sender
file_done s = record s {
  request = record s.request { response_done = true; resource_fd = minus_one };
}

-- What `sendfile` moves of the file, and the sender then.
abbrev pub count : ℕ → Sender → ℕ
count n s = min (suc n) (to_size s.request.resource_len)

abbrev pub move : ℕ → Sender → Sender
move n s = record s { file = drop (count n s) s.file; out = s.out ++ take (count n s) s.file }

-- The loop of `sy_send_response_file`.
unfoldable pub send_file_loop : List FileAnswer → Sender → Code × Sender
unfolding min
send_file_loop [] s = (again, s)
send_file_loop (would_block ∷ answers) s = (again, s)
send_file_loop (broken ∷ answers) s = (error, s)
send_file_loop (moved n ∷ answers) s =
    let rest = send_file_loop answers (move n s) in
    if length (take (count n s) s.file) == 0 then (ok, file_done s) else rest

unfoldable pub send_response_file : List FileAnswer → Sender → Option (Code × Sender)
unfolding send_file_loop
send_response_file answers s = if s.request.uc == 0 then some (send_file_loop answers s) else none

-- The kernel's answers in a call of an `out_handler`.
pub record Answers : Type 0 where
  pub sends : List Departure
  pub sendfiles : List FileAnswer

abbrev pub call_out_handler : OutHandler → Answers → Memory → Sender → Option (Code × Sender)
call_out_handler OutHandler.send_response_buffer a m s = some (send_response_buffer a.sends m s)
call_out_handler OutHandler.send_response_file a m s = send_response_file a.sendfiles s

abbrev pub is_ok : Code → Bool
is_ok ok = true
is_ok _ = false

-- The test at the end of a round.
abbrev pub loop_on :
    (Sender → Option (Code × Sender)) → Option (Code × Sender) → Option (Code × Sender)
loop_on next none = none
loop_on next (some (code, t)) = elim (is_ok code && not t.request.response_done) [
  | true ↦ next t
  | false ↦ some (code, t)
]

-- The loop of `sy_handle_response`, with the answers in each of its rounds. Too few give `none`.
unfoldable pub handle_response_loop : List Answers → Memory → Sender → Option (Code × Sender)
unfolding send_response_buffer send_response_file
handle_response_loop [] m s = none
handle_response_loop (a ∷ rounds) m s =
    loop_on (handle_response_loop rounds m) (call_out_handler s.request.out_handler a m s)

-- The next request of a connection that is kept alive.
abbrev pub renewed : Sender → Sender
renewed t = record t {
  connection = enable_in (disable_out t.connection);
  request = request_clear t.request;
}

-- Behind the loop.
abbrev pub respond : Code → Sender → Code × Sender
respond code t =
    if t.request.response_done
    then if t.request.keep_alive then (code, renewed t) else (error, t)
    else (code, t)

abbrev pub respond_to : Option (Code × Sender) → Option (Code × Sender)
respond_to none = none
respond_to (some (code, t)) = some (respond code t)

unfoldable pub handle_response : List Answers → Memory → Sender → Option (Code × Sender)
unfolding handle_response_loop request_clear enable_in disable_out
handle_response rounds m s = respond_to (handle_response_loop rounds m s)
