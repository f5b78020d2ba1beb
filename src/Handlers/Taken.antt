-- ===== src/Handlers/Taken.antt =====
-- Whether the kernel takes the whole response in a call of `sy_handle_response`.
use sy_server.Base.{
  ℕ, zero, suc, ◌-◌, ◌≡◌, refl, sym, ap, ◌∙◌, Bool, true, false, not, ◌&&◌, ◌==◌, leb, Option, none,
  some, List, [], ◌∷◌, ◌++◌, ◌<◌, le→leb, length, take, drop, inl, inr, if◌then◌else◌, arith,
}
use sy_server.Memory.{Memory}
use sy_server.Buffer.{Buffer, Departure, size, send, clear}
use sy_server.Connection.{disable_out}
use sy_server.Buffer.Send.{Sent, capacity, send-Sent}
use sy_server.Types.{OutHandler}
use sy_server.Util.{Code, ok, error, min, to_size}
use sy_server.Handlers.Sending.{
  Sender, FileAnswer, moved, would_block, broken, Answers, is_open, is_ok, count, move, file_done,
  buffer_sent, send_file_loop, send_response_buffer, send_response_file, call_out_handler, loop_on,
  handle_response_loop,
}
use sy_server.Handlers.Pending.{IsSending}

-- With `left` bytes in the file and at most `most` in a call, `sendfile` comes to answer 0 before it
-- answers otherwise.
abbrev pub reads_all : List FileAnswer → ℕ → ℕ → Bool
reads_all [] left most = false
reads_all (moved n ∷ answers) left most =
    let bytes = min (min (suc n) most) left in
    let rest = reads_all answers (left - bytes) most in if bytes == 0 then true else rest
reads_all (_ ∷ answers) left most = false

abbrev pub file_taken : Answers → Sender → Bool
file_taken a s = reads_all a.sendfiles (length s.file) (to_size s.request.resource_len)

-- In two rounds, of which the first one has the answers `a`: the buffer and then the file, if one is
-- open, or what is left of the file.
abbrev taken_by : OutHandler → Answers → Answers → Sender → Bool
taken_by OutHandler.send_response_buffer a b s =
    leb (size s.request.sb) (capacity a.sends)
    && (if is_open s.request.resource_fd then file_taken b s else true)
taken_by OutHandler.send_response_file a b s = file_taken a s

abbrev pub all_taken : Answers → Answers → Sender → Bool
all_taken a b s = taken_by s.request.out_handler a b s

abbrev pub ok_of : Option (Code × Sender) → Bool
ok_of none = false
ok_of (some (code, t)) = is_ok code

length-drop : (k : ℕ) (xs : List ℕ) → length (drop k xs) ≡ length xs - min k (length xs)
unfolding min
length-drop zero xs = ground arith
length-drop (suc k) [] = ground arith
length-drop (suc k) (x ∷ xs) = ground (arith, length-drop k xs)

length-take : (k : ℕ) (xs : List ℕ) → length (take k xs) ≡ min k (length xs)
unfolding min
length-take zero xs = ground arith
length-take (suc k) [] = ground arith
length-take (suc k) (x ∷ xs) = ground (arith, length-take k xs)

done_ok :
    (next : Sender → Option (Code × Sender)) (b : Bool) (s : Sender) (rest : Code × Sender)
    (y : Bool)
    → ok_of (loop_on next (some rest)) ≡ y
    → ok_of (loop_on next (some (if b then (ok, file_done s) else rest))) ≡ (if b then true else y)
done_ok next true s rest y e = refl
done_ok next false s rest y e = e

-- A round of the file.
file_round_ok :
    (next : Sender → Option (Code × Sender)) (answers : List FileAnswer) (s : Sender)
    → ok_of (loop_on next (some (send_file_loop answers s)))
      ≡ reads_all answers (length s.file) (to_size s.request.resource_len)
unfolding send_file_loop
file_round_ok next [] s = refl
file_round_ok next (would_block ∷ answers) s = refl
file_round_ok next (broken ∷ answers) s = refl
file_round_ok next (moved n ∷ answers) s =
    let most = to_size s.request.resource_len in
    let rest = reads_all answers (length s.file - min (count n s) (length s.file)) most in
    done_ok next (length (take (count n s) s.file) == 0) s (send_file_loop answers (move n s)) rest
      (file_round_ok next answers (move n s)
        ∙ ap (λ k. reads_all answers k most) (length-drop (count n s) s.file))
    ∙ ap (λ k. if k == 0 then true else rest) (length-take (count n s) s.file)

file_last_ok :
    (a : Answers) (rounds : List Answers) (m : Memory) (s : Sender)
    → s.request.uc ≡ 0
    → s.request.out_handler ≡ OutHandler.send_response_file
    → ok_of (handle_response_loop (a ∷ rounds) m s) ≡ file_taken a s
unfolding handle_response_loop send_response_file
file_last_ok a rounds m s direct at =
    let next = handle_response_loop rounds m in
    ap (λ h. ok_of (loop_on next (call_out_handler h a m s))) at
    ∙ ap (λ u. ok_of (loop_on next (if u == 0 then some (send_file_loop a.sendfiles s) else none)))
        direct
    ∙ file_round_ok next a.sendfiles s

-- The sender when its buffer has been taken.
abbrev emptied : Sender → List ℕ → Buffer → Sender
emptied s out sb = record s { request = record s.request { sb = clear sb }; out = s.out ++ out }

abbrev to_file : Sender → Sender
to_file t = record t { request = record t.request { out_handler = OutHandler.send_response_file } }

abbrev sent_whole : Sender → Sender
sent_whole t = record t {
  connection = disable_out t.connection;
  request = record t.request { response_done = true };
}

opened_ok :
    (x : Bool) (b : Answers) (rounds : List Answers) (m : Memory) (t : Sender)
    → t.request.uc ≡ 0
    → t.request.response_done ≡ false
    → ok_of (
        loop_on
          (handle_response_loop (b ∷ rounds) m)
          (some (if x then (ok, to_file t) else (ok, sent_whole t))))
      ≡ (if x then file_taken b t else true)
opened_ok true b rounds m t direct fresh =
    let next = handle_response_loop (b ∷ rounds) m in
    ap (λ d. ok_of (elim (not d) [ true ↦ next (to_file t) | false ↦ some (ok, to_file t) ])) fresh
    ∙ file_last_ok b rounds m (to_file t) direct refl
opened_ok false b rounds m t direct fresh = refl

lt→leb : (a b : ℕ) → a < b → leb b a ≡ false
lt→leb a b h = ground arith

-- What the first round makes of the buffer, and the second one of the file.
buffer_round_ok :
    (ds : List Departure) (b : Answers) (rounds : List Answers) (m : Memory) (s : Sender)
    (result : Code × List ℕ × Buffer)
    → s.request.uc ≡ 0
    → s.request.response_done ≡ false
    → Sent m s.request.sb ds result
    → ok_of (loop_on (handle_response_loop (b ∷ rounds) m) (some (buffer_sent s result))) ≡ (
        leb (size s.request.sb) (capacity ds)
        && (if is_open s.request.resource_fd then file_taken b s else true))
unfolding buffer_sent
buffer_round_ok ds b rounds m s (ok, out, sb) direct fresh (inl (le, _, _, _)) =
    let next = handle_response_loop (b ∷ rounds) m in
    let t = emptied s out sb in
    let answer : Code × Sender =
      if is_open s.request.resource_fd then (ok, to_file t) else (ok, sent_whole t) in
    let taken = if is_open s.request.resource_fd then file_taken b s else true in
    ap (λ u. ok_of (loop_on next (some (if not (u == 0) then (Code.again, t) else answer)))) direct
    ∙ opened_ok (is_open s.request.resource_fd) b rounds m t direct fresh
    ∙ sym (ap (λ x. x && taken) (le→leb (size s.request.sb) (capacity ds) le))
buffer_round_ok ds b rounds m s (ok, out, sb) direct fresh (inr (_, ne, _, _, _)) = absurd (ne refl)
buffer_round_ok ds b rounds m s (error, out, sb) direct fresh (inr (lt, _, _, _, _)) =
    let taken = if is_open s.request.resource_fd then file_taken b s else true in
    sym (ap (λ x. x && taken) (lt→leb (capacity ds) (size s.request.sb) lt))
buffer_round_ok ds b rounds m s (code, out, sb) direct fresh (inr (lt, _, _, _, _)) =
    let taken = if is_open s.request.resource_fd then file_taken b s else true in
    sym (ap (λ x. x && taken) (lt→leb (capacity ds) (size s.request.sb) lt))
buffer_round_ok ds b rounds m s (_, out, sb) direct fresh (inl (_, is_ok, _, _)) = cc

-- The loop ends with `ok` if and only if all is taken.
pub handle_response_loop_ok :
    (a b : Answers) (rounds : List Answers) (m : Memory) (s : Sender)
    → IsSending s
    → ok_of (handle_response_loop (a ∷ b ∷ rounds) m s) ≡ all_taken a b s
unfolding handle_response_loop send_response_buffer
handle_response_loop_ok a b rounds m s i = go s.request.out_handler refl
  where
    go :
        (h : OutHandler)
        → s.request.out_handler ≡ h
        → ok_of (handle_response_loop (a ∷ b ∷ rounds) m s) ≡ taken_by h a b s
    go OutHandler.send_response_buffer at =
        ap (λ h. ok_of (loop_on (handle_response_loop (b ∷ rounds) m) (call_out_handler h a m s)))
          at
        ∙ buffer_round_ok a.sends b rounds m s (send a.sends m s.request.sb) i.direct i.not_done
            (send-Sent a.sends m s.request.sb i.valid)
    go OutHandler.send_response_file at = file_last_ok a (b ∷ rounds) m s i.direct at
