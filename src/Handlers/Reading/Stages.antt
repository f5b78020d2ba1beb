-- ===== src/Handlers/Reading/Stages.antt =====
-- The three handlers follow each other: each that succeeds either ends the request or hands it to
-- the next one.
use sy_server.Base.{
  ℕ, suc, ◌≡◌, inl, inr, refl, Bool, ◌∙◌, sym, subst, true, false, Option, none, some,
}
use sy_server.Buffer.{size}
use sy_server.Types.{InHandler}
use sy_server.Util.{Code, ok}
use sy_server.Http.RequestLine.{parse_request_line}
use sy_server.Handlers.Reading.{System, World}
use sy_server.Handlers.Reading.Headers.{handle_headers}
use sy_server.Handlers.Reading.Incoming.{
  handle_request_line, call_in_handler, loop_on, handle_request_loop,
}
use sy_server.Handlers.Reading.Runs.{Run, Turn, last, further, Run-Turn}
use sy_server.Handlers.Reading.Outcomes.{
  OkAt, OverOrAt, AtBody, Over, line_parsed-at, handle_headers_loop-at, handle_body-Over,
}

-- The code is `ok` and the request is not over.
abbrev GoesOn : (World → Type 0) → World → Type 0
GoesOn P w = P w × (w.request.body_done ≡ false)

-- What the test of the loop makes of the result of a handler.
loop_on-Turn :
    (P : World → Type 0) (result : Option (Code × World))
    → OkAt P result
    → Turn (GoesOn P) (λ next. loop_on next result)
loop_on-Turn P none p = last none (λ next. refl)
loop_on-Turn P (some (ok, w)) p = go w.request.body_done refl
  where
    go :
        (b : Bool)
        → w.request.body_done ≡ b
        → Turn (GoesOn P) (λ next. loop_on next (some (Code.ok, w)))
    go true e = last (some (Code.ok, w)) (λ next. rw e refl)
    go false e = further w (p, e) (λ next. rw e refl)
loop_on-Turn P (some (code, w)) p = last (some (code, w)) (λ next. refl)

-- A round of the loop of `handle_request`, `next` being what the rounds behind it do.
abbrev pub request_round : System → (World → Option (Code × World)) → World → Option (Code × World)
request_round sys next w = loop_on next (call_in_handler w.request.in_handler sys w)

over_stays : {A : Type 0} (w : World) → GoesOn Over w → A
over_stays w (over, e) = absurd (true_false (sym over ∙ e))
  where
    true_false : true ≡ false → ⊥
    true_false e = cc

Run-at_body :
    (n : ℕ) (sys : System) (w : World)
    → w.request.in_handler ≡ InHandler.handle_body
    → Run (request_round sys) w (handle_request_loop (suc n) sys w)
unfolding handle_request_loop
Run-at_body n sys w e =
    Run-Turn (GoesOn Over) (request_round sys) (handle_request_loop n sys) w
      (loop_on-Turn Over (call_in_handler w.request.in_handler sys w)
        (subst (λ h. OkAt Over (call_in_handler h sys w)) (sym e) (handle_body-Over sys w)))
      (λ v goes. over_stays v goes)

Run-at_headers :
    (n : ℕ) (sys : System) (w : World)
    → w.request.in_handler ≡ InHandler.handle_headers
    → Run (request_round sys) w (handle_request_loop (suc (suc n)) sys w)
unfolding handle_request_loop handle_headers
Run-at_headers n sys w e =
    Run-Turn (GoesOn AtBody) (request_round sys) (handle_request_loop (suc n) sys) w
      (loop_on-Turn AtBody (call_in_handler w.request.in_handler sys w) (
        subst (λ h. OkAt AtBody (call_in_handler h sys w)) (sym e)
          (handle_headers_loop-at (suc (size w.request.rb)) sys w)))
      (λ v goes. Run-at_body n sys v goes.0)

Run-at_line :
    (n : ℕ) (sys : System) (w : World)
    → w.request.in_handler ≡ InHandler.handle_request_line
    → Run (request_round sys) w (handle_request_loop (suc (suc (suc n))) sys w)
unfolding handle_request_loop handle_request_line
Run-at_line n sys w e =
    let At = OverOrAt InHandler.handle_headers in
    Run-Turn (GoesOn At) (request_round sys) (handle_request_loop (suc (suc n)) sys) w
      (loop_on-Turn At (call_in_handler w.request.in_handler sys w) (
        subst (λ h. OkAt At (call_in_handler h sys w)) (sym e)
          (line_parsed-at sys w (parse_request_line w.memory w.request))))
      go
  where
    go :
        (v : World)
        → GoesOn (OverOrAt InHandler.handle_headers) v
        → Run (request_round sys) v (handle_request_loop (suc (suc n)) sys v)
    go v (inl over, e) = over_stays v (over, e)
    go v (inr at, e) = Run-at_headers n sys v at

-- From every state the loop of `handle_request` without a bound has a finite run of rounds, and its
-- result is that of the loop with three rounds or more: the bound is never what ends it. A round
-- takes the whole call of a handler, in which the loop of the headers has a bound of its own.
pub handle_request_loop-Run :
    (n : ℕ) (sys : System) (w : World)
    → Run (request_round sys) w (handle_request_loop (suc (suc (suc n))) sys w)
handle_request_loop-Run n sys w = go w.request.in_handler refl
  where
    go :
        (h : InHandler)
        → w.request.in_handler ≡ h
        → Run (request_round sys) w (handle_request_loop (suc (suc (suc n))) sys w)
    go InHandler.handle_request_line e = Run-at_line n sys w e
    go InHandler.handle_headers e = Run-at_headers (suc n) sys w e
    go InHandler.handle_body e = Run-at_body (suc (suc n)) sys w e
