-- ===== src/Handlers/FileSent.antt =====
-- The loop over `sendfile`.
use sy_server.Base.{
  ℕ, zero, suc, ◌≤◌, ◌<◌, ◌≡◌, refl, sym, ap, ◌∙◌, true, List, [], ◌∷◌, ◌++◌, length, take, drop,
  take-append-drop, append_assoc, arith, ◌==◌, if_cases,
}
use sy_server.Memory.{Memory}
use sy_server.Types.{OutHandler}
use sy_server.Util.{Code, again, error, min}
use sy_server.Handlers.{request_init, request_clear}
use sy_server.Handlers.Sending.{
  Sender, FileAnswer, moved, would_block, broken, count, move, file_done, send_file_loop,
}
use sy_server.Handlers.Pending.{pending, IsSending, Kept, Called, finished, turned, stopped}

-- `sendfile` moves nothing only at the end of the file.
take-nil :
    (k : ℕ) (xs : List ℕ) → (0 < length xs → 0 < k) → (length (take k xs) == 0) ≡ true → xs ≡ []
take-nil k [] pos h = refl
take-nil zero (x ∷ xs) pos h = absurd (omega (arith, pos (omega arith)))
take-nil (suc k) (x ∷ xs) pos h = absurd (ground arith)

count_pos : (n : ℕ) (s : Sender) → 0 < s.request.resource_len → 0 < count n s
unfolding min
count_pos n s h = ground arith

length-drop_le : (k : ℕ) (xs : List ℕ) → length (drop k xs) ≤ length xs
length-drop_le zero xs = omega arith
length-drop_le (suc k) [] = omega arith
length-drop_le (suc k) (x ∷ xs) = omega (arith, length-drop_le k xs)

move-IsSending : (n : ℕ) (s : Sender) → IsSending s → IsSending (move n s)
move-IsSending n s i = record {
  valid = i.valid;
  direct = i.direct;
  known_length = omega (arith, i.known_length, length-drop_le (count n s) s.file);
  not_done = i.not_done;
  head_sent = i.head_sent;
}

-- While the file is sent, nothing else is pending.
pending-file :
    (m : Memory) (s : Sender)
    → IsSending s
    → s.request.out_handler ≡ OutHandler.send_response_file
    → pending m s ≡ s.file
pending-file m s i st = let (e, f) = i.head_sent st in rw (e, f) refl

move-Kept :
    (n : ℕ) (m : Memory) (s : Sender)
    → IsSending s
    → s.request.out_handler ≡ OutHandler.send_response_file
    → Kept m s (move n s)
move-Kept n m s i st = record {
  conserved =
      ap (◌++◌ (s.out ++ take (count n s) s.file))
        (pending-file m (move n s) (move-IsSending n s i) st)
      ∙ append_assoc s.out (take (count n s) s.file) (drop (count n s) s.file)
      ∙ ap (◌++◌ s.out) (take-append-drop (count n s) s.file ∙ sym (pending-file m s i st));
  same_keep_alive = refl;
  same_connection = refl;
}

Kept-refl : (m : Memory) (s : Sender) → Kept m s s
Kept-refl m s = record { conserved = refl; same_keep_alive = refl; same_connection = refl }

pub Kept-trans : {m : Memory} {s t u : Sender} → Kept m s t → Kept m t u → Kept m s u
Kept-trans k l = record {
  conserved = l.conserved ∙ k.conserved;
  same_keep_alive = l.same_keep_alive ∙ k.same_keep_alive;
  same_connection = l.same_connection ∙ k.same_connection;
}

pub Called-from :
    (m : Memory) (s t : Sender)
    → Kept m s t
    → s.request.out_handler ≡ t.request.out_handler
    → request_clear t.request ≡ request_clear s.request
    → (code : Code) (u : Sender) → Called m t code u
    → Called m s code u
Called-from m s t k o e _ _ (finished u l d p c) = finished u (Kept-trans k l) d p (c ∙ e)
Called-from m s t k o e _ _ (turned u l i b h c) = turned u (Kept-trans k l) i (o ∙ b) h (c ∙ e)
Called-from m s t k o e _ _ (stopped code u l i h) = stopped code u (Kept-trans k l) i h

pub send_file_loop-Called :
    (answers : List FileAnswer) (m : Memory) (s : Sender)
    → IsSending s
    → s.request.out_handler ≡ OutHandler.send_response_file
    → Called m s (send_file_loop answers s).0 (send_file_loop answers s).1
unfolding send_file_loop request_clear request_init
send_file_loop-Called [] m s i st = stopped again s (Kept-refl m s) i refl
send_file_loop-Called (would_block ∷ answers) m s i st = stopped again s (Kept-refl m s) i refl
send_file_loop-Called (broken ∷ answers) m s i st = stopped error s (Kept-refl m s) i refl
send_file_loop-Called (moved n ∷ answers) m s i st =
    let (e, f) = i.head_sent st in
    let rest = send_file_loop-Called answers m (move n s) (move-IsSending n s i) st in
    if_cases (λ (r : Code × Sender). Called m s r.0 r.1) (length (take (count n s) s.file) == 0)
      (λ h.
        let nil =
          take-nil (count n s) s.file (λ lt. count_pos n s (omega (arith, i.known_length))) h in
        let none_left : pending m (file_done s) ≡ [] = rw e refl in
        finished (file_done s)
          (record {
            conserved = ap (◌++◌ s.out) (none_left ∙ sym (pending-file m s i st ∙ nil));
            same_keep_alive = refl;
            same_connection = refl;
          })
          refl none_left refl)
      (λ h. Called-from m s (move n s) (move-Kept n m s i st) refl refl _ _ rest)
