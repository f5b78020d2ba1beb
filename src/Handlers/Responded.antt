-- ===== src/Handlers/Responded.antt =====
-- `sy_handle_response` on a response that is being sent.
use sy_server.Base.{
  ◌≡◌, refl, sym, ap, ◌∙◌, Bool, true, false, not, ◌&&◌, Option, some, subst, inl, inr, Bool-cases,
  ◌≢◌, List, [], ◌∷◌, ◌++◌, append-nil, arith, ◌==◌, if◌then◌else◌,
}
use sy_server.Memory.{Memory}
use sy_server.Buffer.Send.{send-Sent}
use sy_server.Connection.{disable_out, enable_in}
use sy_server.Types.{OutHandler}
use sy_server.Util.{Code, ok, error}
use sy_server.Handlers.{request_clear}
use sy_server.Handlers.Sending.{
  Sender, Answers, is_ok, send_response_buffer, send_response_file, call_out_handler, loop_on,
  handle_response_loop, respond, renewed, respond_to, handle_response,
}
use sy_server.Handlers.Pending.{
  pending, IsSending, Kept, Called, finished, turned, stopped, buffer_sent-Called,
}
use sy_server.Handlers.Taken.{ok_of, all_taken, handle_response_loop_ok}
use sy_server.Handlers.FileSent.{Kept-trans, send_file_loop-Called}

call_out_handler-Called :
    (handler : OutHandler) (a : Answers) (m : Memory) (s : Sender)
    → s.request.out_handler ≡ handler
    → IsSending s
    → (code : Code) × (t : Sender) × (call_out_handler handler a m s ≡ some (code, t))
      × Called m s code t
unfolding send_response_buffer send_response_file
call_out_handler-Called OutHandler.send_response_buffer a m s st i =
    (_, _, refl, buffer_sent-Called m s a.sends _ i st (send-Sent a.sends m s.request.sb i.valid))
call_out_handler-Called OutHandler.send_response_file a m s st i =
    let e : (s.request.uc == 0) ≡ true = ground (arith, i.direct) in
    (_, _, rw e refl, send_file_loop-Called a.sendfiles m s i st)

-- How the loop ends.
pub data Looped (m : Memory) (s : Sender) : Option (Code × Sender) → Type 0 where
  done :
      (t : Sender)
      → Kept m s t
      → t.request.response_done ≡ true
      → pending m t ≡ []
      → request_clear t.request ≡ request_clear s.request
      → Looped m s (some (ok, t))
  halted :
      (code : Code) (t : Sender)
      → Kept m s t
      → IsSending t
      → is_ok code ≡ false
      → Looped m s (some (code, t))

Looped-from :
    (m : Memory) (s t : Sender)
    → Kept m s t
    → request_clear t.request ≡ request_clear s.request
    → (result : Option (Code × Sender)) → Looped m t result
    → Looped m s result
Looped-from m s t k e _ (done u l d p c) = done u (Kept-trans k l) d p (c ∙ e)
Looped-from m s t k e _ (halted code u l i h) = halted code u (Kept-trans k l) i h

file-buffer : OutHandler.send_response_file ≢ OutHandler.send_response_buffer
file-buffer e = cc

loop_on-Looped :
    (next : Sender → Option (Code × Sender)) (m : Memory) (s : Sender) (code : Code) (t : Sender)
    → Called m s code t
    → (s.request.out_handler ≡ OutHandler.send_response_buffer
        → t.request.out_handler ≡ OutHandler.send_response_file
        → IsSending t
        → Looped m t (next t))
    → Looped m s (loop_on next (some (code, t)))
loop_on-Looped next m s _ _ (finished t k d p c) rest =
    subst (λ x. Looped m s (elim (not x) [ true ↦ next t | false ↦ some (ok, t) ])) (sym d)
      (done t k d p c)
loop_on-Looped next m s _ _ (turned t k i b h c) rest =
    subst (λ x. Looped m s (elim (not x) [ true ↦ next t | false ↦ some (ok, t) ])) (sym i.not_done)
      (Looped-from m s t k c (next t) (rest b h i))
loop_on-Looped next m s _ _ (stopped code t k i h) rest =
    subst
      (λ x.
        Looped m s
          (elim (x && not t.request.response_done) [ true ↦ next t | false ↦ some (code, t) ]))
      (sym h) (halted code t k i h)

-- A round of the file is the last.
handle_response_loop-file :
    (a : Answers) (rounds : List Answers) (m : Memory) (s : Sender)
    → IsSending s
    → s.request.out_handler ≡ OutHandler.send_response_file
    → Looped m s (handle_response_loop (a ∷ rounds) m s)
unfolding handle_response_loop
handle_response_loop-file a rounds m s i st =
    let (code, t, e, called) = call_out_handler-Called s.request.out_handler a m s refl i in
    subst (λ x. Looped m s (loop_on (handle_response_loop rounds m) x)) (sym e)
      (loop_on-Looped (handle_response_loop rounds m) m s code t called
        (λ b. absurd (file-buffer (sym st ∙ b))))

pub handle_response_loop-Looped :
    (a b : Answers) (rounds : List Answers) (m : Memory) (s : Sender)
    → IsSending s
    → Looped m s (handle_response_loop (a ∷ b ∷ rounds) m s)
unfolding handle_response_loop
handle_response_loop-Looped a b rounds m s i =
    let (code, t, e, called) = call_out_handler-Called s.request.out_handler a m s refl i in
    let next = handle_response_loop (b ∷ rounds) m in
    subst (λ x. Looped m s (loop_on next x)) (sym e)
      (loop_on-Looped next m s code t called (λ _ h j. handle_response_loop-file b rounds m t j h))

-- What a call of `handle_response` on `s` does when it sends all that is pending.
pub data Whole (m : Memory) (s : Sender) : Code → Sender → Type 0 where
  kept_alive :
      (t : Sender)
      → s.request.keep_alive ≡ true
      → t.out ≡ s.out ++ pending m s
      → t.request ≡ request_clear s.request
      → t.connection ≡ record s.connection { watch_in = true; watch_out = false }
      → Whole m s ok t
  closing :
      (t : Sender) → s.request.keep_alive ≡ false → t.out ≡ s.out ++ pending m s → Whole m s error t

-- What any call does, with the code and the sender it leaves: all, where the kernel takes all, or a
-- part, where it does not.
pub data Responded (all : Bool) (m : Memory) (s : Sender) : Code → Sender → Type 0 where
  whole : (code : Code) (t : Sender) → all ≡ true → Whole m s code t → Responded all m s code t
  unfinished :
      (code : Code) (t : Sender)
      → all ≡ false
      → Kept m s t
      → IsSending t
      → is_ok code ≡ false
      → Responded all m s code t

pub respond-Whole :
    (m : Memory) (s t : Sender)
    → Kept m s t
    → t.request.response_done ≡ true
    → pending m t ≡ []
    → request_clear t.request ≡ request_clear s.request
    → (code : Code) × (u : Sender) × (respond_to (some (ok, t)) ≡ some (code, u)) × Whole m s code u
unfolding enable_in disable_out
respond-Whole m s t k d p c =
    let all : t.out ≡ s.out ++ pending m s =
      sym (append-nil t.out) ∙ ap (◌++◌ t.out) (sym p) ∙ k.conserved in
    let at_end : respond ok t ≡ (if t.request.keep_alive then (ok, renewed t) else (error, t)) =
      ap (λ x. if x then if t.request.keep_alive then (ok, renewed t) else (error, t) else (ok, t))
        d in
    let branch : Bool → Code × Sender = λ x. if x then (ok, renewed t) else (error, t) in
    elim (Bool-cases t.request.keep_alive) [
      | inl h ↦ (
        ok,
        renewed t,
        ap some (at_end ∙ ap branch h),
        kept_alive (renewed t) (sym k.same_keep_alive ∙ h) all c (ap enable_in k.same_connection),
      )
      | inr h ↦
          (error, t, ap some (at_end ∙ ap branch h), closing t (sym k.same_keep_alive ∙ h) all)
    ]

respond_to-Responded :
    (all : Bool) (m : Memory) (s : Sender) (result : Option (Code × Sender))
    → Looped m s result
    → ok_of result ≡ all
    → (code : Code) × (t : Sender) × (respond_to result ≡ some (code, t)) × Responded all m s code t
respond_to-Responded all m s _ (done t k d p c) taken =
    let (code, u, e, w) = respond-Whole m s t k d p c in (code, u, e, whole code u (sym taken) w)
respond_to-Responded all m s _ (halted code t k i h) taken =
    let e : respond code t ≡ (code, t) =
      ap
        (λ x.
          if x then if t.request.keep_alive then (code, renewed t) else (error, t) else (code, t))
        i.not_done in
    (code, t, ap some e, unfinished code t (sym taken ∙ h) k i h)

-- Two rounds of its loop are enough for `handle_response`, whatever the kernel answers, on a
-- response of a request without an upstream whose buffer is valid and whose file is no longer than
-- `resource_len`. All is taken if the kernel takes as many bytes as are in the buffer, and then,
-- with a file, `sendfile` comes to answer 0 before it answers otherwise. If all is taken, what is
-- sent is what was pending, the buffer and then the file: a request that is kept alive gives way to
-- a new one, with its connection watching for input only, and for another one the code is `error`.
-- If not, the code is another one than `ok`, what is sent and what is pending are together the old
-- bytes in their order, and the response can go on from there.
pub handle_response-Responded :
    (a b : Answers) (rounds : List Answers) (m : Memory) (s : Sender)
    → IsSending s
    → (code : Code) × (t : Sender) × (handle_response (a ∷ b ∷ rounds) m s ≡ some (code, t))
      × Responded (all_taken a b s) m s code t
unfolding handle_response
handle_response-Responded a b rounds m s i =
    respond_to-Responded (all_taken a b s) m s _ (handle_response_loop-Looped a b rounds m s i)
      (handle_response_loop_ok a b rounds m s i)
