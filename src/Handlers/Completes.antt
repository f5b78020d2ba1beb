-- ===== src/Handlers/Completes.antt =====
-- When a response is sent to its end.
use sy_server.Base.{
  ℕ, zero, suc, ◌-◌, ◌≤◌, ◌<◌, ◌≡◌, refl, sym, ap, ◌∙◌, Bool, true, false, List, [], ◌∷◌, length,
  take, drop, arith, ◌==◌, if_cases, Option, none, some, not, inl, inr, if◌then◌else◌,
}
use sy_server.Memory.{Memory}
use sy_server.Buffer.{Buffer, IsBuffer, Departure, send, size}
use sy_server.Buffer.Send.{Sent, capacity, send-Sent}
use sy_server.Types.{OutHandler}
use sy_server.Util.{Code, ok, error}
use sy_server.Handlers.Sending.{
  Sender, FileAnswer, moved, would_block, broken, Answers, is_open, is_ok, count, move, buffer_sent,
  send_file_loop, send_response_buffer, send_response_file, call_out_handler, loop_on,
  handle_response_loop, respond_to, handle_response,
}
use sy_server.Handlers.Pending.{IsSending, Called, finished, turned, stopped, buffer_sent-Called}
use sy_server.Handlers.Responded.{
  Whole, respond-Whole, Looped, done, halted, handle_response_loop-Looped,
}

-- Each of the kernel's answers moves something where there is something to move.
abbrev pub all_moved : List FileAnswer → Bool
all_moved [] = true
all_moved (moved n ∷ answers) = all_moved answers
all_moved (_ ∷ answers) = false

length-drop : (k : ℕ) (xs : List ℕ) → length (drop k xs) ≡ length xs - k
length-drop zero xs = omega arith
length-drop (suc k) [] = omega arith
length-drop (suc k) (x ∷ xs) = omega (arith, length-drop k xs)

take-some : (k : ℕ) (xs : List ℕ) → (length (take k xs) == 0) ≡ false → (0 < k) × (0 < length xs)
take-some zero xs h = cc
take-some (suc k) [] h = cc
take-some (suc k) (x ∷ xs) h = (omega arith, omega arith)

pub send_file_loop-completes :
    (answers : List FileAnswer) (s : Sender)
    → all_moved answers ≡ true
    → length s.file < length answers
    → ((send_file_loop answers s).0 ≡ ok)
      × ((send_file_loop answers s).1.request.response_done ≡ true)
unfolding send_file_loop
send_file_loop-completes [] s all lt = absurd (omega arith)
send_file_loop-completes (would_block ∷ answers) s all lt = cc
send_file_loop-completes (broken ∷ answers) s all lt = cc
send_file_loop-completes (moved n ∷ answers) s all lt =
    if_cases (λ (r : Code × Sender). (r.0 ≡ ok) × (r.1.request.response_done ≡ true))
      (length (take (count n s) s.file) == 0) (λ h. (refl, refl))
      (λ h.
        let (k, p) = take-some (count n s) s.file h in
        send_file_loop-completes answers (move n s) all
          (omega (arith, length-drop (count n s) s.file)))

buffer_sent-ok :
    (s : Sender) (result : Code × List ℕ × Buffer)
    → s.request.uc ≡ 0
    → result.0 ≡ ok
    → ((buffer_sent s result).0 ≡ ok) × ((buffer_sent s result).1.file ≡ s.file)
unfolding buffer_sent
buffer_sent-ok s (ok, taken, b) direct e =
    let P : Code × Sender → Type 0 = λ r. (r.0 ≡ ok) × (r.1.file ≡ s.file) in
    if_cases P (not (s.request.uc == 0)) (λ h. absurd (ground (arith, direct)))
      (λ _. if_cases P (is_open s.request.resource_fd) (λ h. (refl, refl)) (λ h. (refl, refl)))
buffer_sent-ok s (_, taken, b) direct e = cc

send-ok :
    (ds : List Departure) (m : Memory) (b : Buffer)
    → IsBuffer b
    → size b ≤ capacity ds
    → (send ds m b).0 ≡ ok
send-ok ds m b i le = go (send ds m b) (send-Sent ds m b i)
  where
    go : (result : Code × List ℕ × Buffer) → Sent m b ds result → result.0 ≡ ok
    go (code, out, b') (inl (h, e, _, _)) = e
    go (code, out, b') (inr (h, _, _, _, _)) = absurd (omega arith)

-- A round of the file that reads all of it ends the loop.
file_round-completes :
    (b : Answers) (rounds : List Answers) (m : Memory) (s : Sender)
    → s.request.uc ≡ 0
    → s.request.out_handler ≡ OutHandler.send_response_file
    → all_moved b.sendfiles ≡ true
    → length s.file < length b.sendfiles
    → handle_response_loop (b ∷ rounds) m s ≡ some (ok, (send_file_loop b.sendfiles s).1)
unfolding handle_response_loop send_response_file
file_round-completes b rounds m s direct st all lt =
    let (code, over) = send_file_loop-completes b.sendfiles s all lt in
    let called : call_out_handler s.request.out_handler b m s
        ≡ some (send_file_loop b.sendfiles s) =
      ap (λ h. call_out_handler h b m s) st
      ∙ ap (λ u. if u == 0 then some (send_file_loop b.sendfiles s) else none) direct in
    let t = (send_file_loop b.sendfiles s).1 in
    ap (loop_on (handle_response_loop rounds m)) called
    ∙ ap (λ c. loop_on (handle_response_loop rounds m) (some (c, t))) code
    ∙ ap (λ x. elim (not x) [ true ↦ handle_response_loop rounds m t | false ↦ some (ok, t) ]) over

ok-stops : {code : Code} → code ≡ ok → is_ok code ≡ false → ⊥
ok-stops e h = let q : true ≡ false = sym (ap is_ok e) ∙ h in cc

second_round-completes :
    (b : Answers) (rounds : List Answers) (m : Memory) (s : Sender) (code : Code) (t : Sender)
    → Called m s code t
    → code ≡ ok
    → t.file ≡ s.file
    → all_moved b.sendfiles ≡ true
    → length s.file < length b.sendfiles
    → (u : Sender) × (loop_on (handle_response_loop (b ∷ rounds) m) (some (code, t)) ≡ some (ok, u))
second_round-completes b rounds m s _ _ (finished t k d p c) e f all lt = (
  t,
  ap (λ x. elim (not x) [ true ↦ handle_response_loop (b ∷ rounds) m t | false ↦ some (ok, t) ]) d,
)
second_round-completes b rounds m s _ _ (turned t k i o h c) e f all lt =
    let n : length t.file < length b.sendfiles = omega (arith, ap length f) in
    (
      (send_file_loop b.sendfiles t).1,
      ap (λ x. elim (not x) [ true ↦ handle_response_loop (b ∷ rounds) m t | false ↦ some (ok, t) ])
            i.not_done
          ∙ file_round-completes b rounds m t i.direct h all n,
    )
second_round-completes b rounds m s _ _ (stopped code t k i h) e f all lt = absurd (ok-stops e h)

handle_response_loop-completes :
    (a b : Answers) (rounds : List Answers) (m : Memory) (s : Sender)
    → IsSending s
    → s.request.out_handler ≡ OutHandler.send_response_buffer
    → size s.request.sb ≤ capacity a.sends
    → all_moved b.sendfiles ≡ true
    → length s.file < length b.sendfiles
    → (u : Sender) × (handle_response_loop (a ∷ b ∷ rounds) m s ≡ some (ok, u))
unfolding handle_response_loop send_response_buffer
handle_response_loop-completes a b rounds m s i st le all lt =
    let result = send a.sends m s.request.sb in
    let sent = send-Sent a.sends m s.request.sb i.valid in
    let (code, file) =
      buffer_sent-ok s result i.direct (send-ok a.sends m s.request.sb i.valid le) in
    let (u, e) =
      second_round-completes b rounds m s _ _ (buffer_sent-Called m s a.sends result i st sent) code
        file all lt in
    (u, ap (λ h. loop_on (handle_response_loop (b ∷ rounds) m) (call_out_handler h a m s)) st ∙ e)

abbrev code_of : Option (Code × Sender) → Code
code_of none = error
code_of (some (code, t)) = code

loop-Whole :
    (m : Memory) (s : Sender) (result : Option (Code × Sender)) (u : Sender)
    → Looped m s result
    → result ≡ some (ok, u)
    → (code : Code) × (t : Sender) × (respond_to result ≡ some (code, t)) × Whole m s code t
loop-Whole m s _ u (done t k d p c) e = respond-Whole m s t k d p c
loop-Whole m s _ u (halted code t k i h) e = absurd (ok-stops (ap code_of e) h)

-- If the kernel takes all of the buffer in the first round, and in the second moves something of
-- the file at each of more calls of `sendfile` than the file has bytes, then `handle_response`
-- sends the whole response: what was pending, in order. A request that is kept alive then gives way
-- to a new one, with the code `ok`, and another one ends with the code `error`.
pub handle_response-completes :
    (a b : Answers) (rounds : List Answers) (m : Memory) (s : Sender)
    → IsSending s
    → s.request.out_handler ≡ OutHandler.send_response_buffer
    → size s.request.sb ≤ capacity a.sends
    → all_moved b.sendfiles ≡ true
    → length s.file < length b.sendfiles
    → (code : Code) × (t : Sender) × (handle_response (a ∷ b ∷ rounds) m s ≡ some (code, t))
      × Whole m s code t
unfolding handle_response
handle_response-completes a b rounds m s i st le all lt =
    let (u, e) = handle_response_loop-completes a b rounds m s i st le all lt in
    loop-Whole m s _ u (handle_response_loop-Looped a b rounds m s i) e
