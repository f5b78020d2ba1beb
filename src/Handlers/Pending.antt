-- ===== src/Handlers/Pending.antt =====
-- What is still to send of a response, and what a call of its handler makes of it.
use sy_server.Base.{
  ℕ, ◌-◌, ◌≤◌, ◌≡◌, refl, sym, ap, ◌∙◌, inl, inr, true, false, List, [], ◌++◌, length, append-nil,
  append_assoc, arith, ◌==◌, if◌then◌else◌, if_cases, not,
}
use sy_server.Memory.{Memory}
use sy_server.Buffer.{Buffer, IsBuffer, Departure, clear, init, size, contents}
use sy_server.Buffer.Send.{Sent}
use sy_server.Connection.{disable_out}
use sy_server.Types.{OutHandler}
use sy_server.Util.{Code, ok, again, error}
use sy_server.Handlers.{request_init, request_clear}
use sy_server.Handlers.Sending.{Sender, is_open, is_ok, buffer_sent}

-- The bytes of the response that the kernel has not taken: those in the buffer, then the file.
abbrev pub pending : Memory → Sender → List ℕ
pending m s = contents m s.request.sb ++ (if is_open s.request.resource_fd then s.file else [])

-- A response that is being sent to a client, with no upstream: once the handler is the one of the
-- file, the buffer is empty and the file is open.
pub record IsSending (s : Sender) : Type 0 where
  pub valid : IsBuffer s.request.sb
  pub direct : s.request.uc ≡ 0
  pub known_length : length s.file ≤ s.request.resource_len
  pub not_done : s.request.response_done ≡ false
  pub head_sent :
      s.request.out_handler ≡ OutHandler.send_response_file
      → (size s.request.sb ≡ 0) × (is_open s.request.resource_fd ≡ true)

-- From `s` to `t`, what has been sent and what is pending are together the same bytes.
pub record Kept (m : Memory) (s t : Sender) : Type 0 where
  pub conserved : t.out ++ pending m t ≡ s.out ++ pending m s
  pub same_keep_alive : t.request.keep_alive ≡ s.request.keep_alive
  pub same_connection : disable_out t.connection ≡ disable_out s.connection

-- How a call of an `out_handler` on `s` ends: the response is done; or its head is and the other
-- handler goes on; or the call stops with a code that ends the loop.
pub data Called (m : Memory) (s : Sender) : Code → Sender → Type 0 where
  finished :
      (t : Sender)
      → Kept m s t
      → t.request.response_done ≡ true
      → pending m t ≡ []
      → request_clear t.request ≡ request_clear s.request
      → Called m s ok t
  turned :
      (t : Sender)
      → Kept m s t
      → IsSending t
      → s.request.out_handler ≡ OutHandler.send_response_buffer
      → t.request.out_handler ≡ OutHandler.send_response_file
      → request_clear t.request ≡ request_clear s.request
      → Called m s ok t
  stopped :
      (code : Code) (t : Sender) → Kept m s t → IsSending t → is_ok code ≡ false → Called m s code t

contents-clear : (m : Memory) (b : Buffer) → contents m (clear b) ≡ []
unfolding clear init
contents-clear m b = let e : b.start - b.start ≡ 0 = omega arith in rw e

clear-IsBuffer : (b : Buffer) → IsBuffer (clear b)
unfolding clear init
clear-IsBuffer b = omega arith

-- A call that leaves the file alone keeps it in what is pending.
conserved_head :
    (out taken head left file : List ℕ)
    → taken ++ left ≡ head
    → (out ++ taken) ++ (left ++ file) ≡ out ++ (head ++ file)
conserved_head out taken head left file e =
    append_assoc out taken (left ++ file)
    ∙ ap (◌++◌ out) (sym (append_assoc taken left file) ∙ ap (λ t. t ++ file) e)

buffer_left-Kept :
    (m : Memory) (s : Sender) (taken : List ℕ) (b : Buffer)
    → taken ++ contents m b ≡ contents m s.request.sb
    → Kept m s (record s { request = record s.request { sb = b }; out = s.out ++ taken })
buffer_left-Kept m s taken b e = record {
  conserved = conserved_head s.out taken _ (contents m b) _ e;
  same_keep_alive = refl;
  same_connection = refl;
}

buffer_left-IsSending :
    (s : Sender) (taken : List ℕ) (b : Buffer)
    → IsSending s
    → IsBuffer b
    → size b ≤ size s.request.sb
    → IsSending (record s { request = record s.request { sb = b }; out = s.out ++ taken })
buffer_left-IsSending s taken b i v l = record {
  valid = v;
  direct = i.direct;
  known_length = i.known_length;
  not_done = i.not_done;
  head_sent = λ h. let (k, f) = i.head_sent h in (omega (arith, k), f);
}

buffer_cleared :
    (s : Sender) (b : Buffer)
    → b ≡ clear s.request.sb
    → request_clear (record s.request { sb = clear b }) ≡ request_clear s.request
unfolding request_clear request_init clear init
buffer_cleared s b e = ap (λ (x : Buffer). request_clear (record s.request { sb = x })) e

pub buffer_sent-Called :
    (m : Memory) (s : Sender) (ds : List Departure) (result : Code × List ℕ × Buffer)
    → IsSending s
    → s.request.out_handler ≡ OutHandler.send_response_buffer
    → Sent m s.request.sb ds result
    → Called m s (buffer_sent s result).0 (buffer_sent s result).1
unfolding buffer_sent request_clear request_init clear init disable_out
buffer_sent-Called m s ds (ok, taken, b) i st (inl (le, e, o, c)) =
    let P : Code × Sender → Type 0 = λ r. Called m s r.0 r.1 in
    let empty = contents-clear m b in
    let k : taken ++ contents m (clear b) ≡ contents m s.request.sb =
      ap (◌++◌ taken) empty ∙ append-nil taken ∙ o in
    let n : size (clear b) ≡ 0 = omega arith in
    if_cases P (not (s.request.uc == 0)) (λ h. absurd (ground (arith, i.direct)))
      (λ _.
        if_cases P (is_open s.request.resource_fd)
          (λ h.
            turned _
              (record {
                conserved = (buffer_left-Kept m s taken (clear b) k).conserved;
                same_keep_alive = refl;
                same_connection = refl;
              })
              (record {
                valid = clear-IsBuffer b;
                direct = i.direct;
                known_length = i.known_length;
                not_done = i.not_done;
                head_sent = λ _. (n, h);
              })
              st refl (buffer_cleared s b c))
          (λ h.
            finished _
              (record {
                conserved = (buffer_left-Kept m s taken (clear b) k).conserved;
                same_keep_alive = refl;
                same_connection = refl;
              })
              refl (rw (empty, h) refl) (buffer_cleared s b c)))
buffer_sent-Called m s ds (ok, taken, b) i st (inr (lt, e, o, v, l)) = absurd (e refl)
buffer_sent-Called m s ds (error, taken, b) i st (inr (lt, e, o, v, l)) =
    stopped error _ (buffer_left-Kept m s taken b o)
      (buffer_left-IsSending s taken b i v (omega (arith, l))) refl
buffer_sent-Called m s ds (_, taken, b) i st (inl (le, e, o, c)) = absurd cc
buffer_sent-Called m s ds (_, taken, b) i st (inr (lt, e, o, v, l)) =
    stopped again _ (buffer_left-Kept m s taken b o)
      (buffer_left-IsSending s taken b i v (omega (arith, l))) refl
