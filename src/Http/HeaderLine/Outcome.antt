-- ===== src/Http/HeaderLine/Outcome.antt =====
-- How a call of `parse_header_line` ends, and what it writes, for every content of the buffer.
use sy_server.Base.{
  ℕ, zero, suc, ◌+◌, ◌≤◌, ◌<◌, ◌≡◌, ◌⊎◌, inl, refl, Bool, true, false, Option, none, some, arith,
  ==→eq, ap, subst, ◌∙◌, ◌==◌, ◌||◌, if_cases,
}
use sy_server.Memory.{Memory, write}
use sy_server.Buffer.{size}
use sy_server.Types.{
  LineState, hl_begin, hl_ignore, hl_name, hl_colon, hl_sp_before_value, hl_value,
  hl_sp_after_value, hl_almost_done, Request,
}
use sy_server.Util.{Code, again}
use sy_server.Http.Step.{Step, next, goto_done, returned, aborted}
use sy_server.Http.Uri.{is_upper, is_lower, is_digit}
use sy_server.Http.HeaderLine.{
  normal, hl_begin_step, hl_ignore_step, hl_name_step, hl_colon_step, hl_value_step,
  hl_sp_after_value_step, hl_almost_done_step, header_line_step, header_done, header_code,
  header_line_loop, parse_header_line,
}

abbrev pub in_header_line : LineState → Bool
in_header_line hl_begin = true
in_header_line hl_ignore = true
in_header_line hl_name = true
in_header_line hl_colon = true
in_header_line hl_sp_before_value = true
in_header_line hl_value = true
in_header_line hl_sp_after_value = true
in_header_line hl_almost_done = true
in_header_line _ = false

-- The request `r'` differs from `r` in its state and in the name and the value of a header only.
abbrev pub SameButHeader : Request → Request → Type 0
SameButHeader r r' =
    r' ≡ record r { state = r'.state; header_name = r'.header_name; header_value = r'.header_value }

-- `m'` is `m`, but that bytes from `p` up to `q` may have become normal.
abbrev pub Normalised : ℕ → ℕ → Memory → Memory → Type 0
Normalised p q m m' = (x : ℕ) → (m' x ≡ m x) ⊎ (p ≤ x) × (x < q) × (m' x ≡ normal (m x))

-- What the switch on one byte may do.
abbrev Stepped : Memory → Request → ℕ → ℕ → Memory × Step → Type 0
Stepped m r p ch (m', next r') =
    Normalised p (suc p) m m' × (in_header_line r'.state ≡ true) × SameButHeader r r'
Stepped m r p ch (m', goto_done r') = (m' ≡ m) × (ch ≡ b'\n') × SameButHeader r r'
Stepped m r p ch (m', returned err r') = ⊥
Stepped m r p ch (m', aborted) = ⊥

write-Normalised : (m : Memory) (p : ℕ) → Normalised p (suc p) m (write m p (normal (m p)))
unfolding write
write-Normalised m p x = ground arith

hl_begin_step-Stepped :
    (m : Memory) (r : Request) (p : ℕ) → Stepped m r p (m p) (hl_begin_step m r p (m p))
unfolding hl_begin_step
hl_begin_step-Stepped m r p =
    let P = Stepped m r p (m p) in
    let ch = m p in
    if_cases P (is_upper ch || ch == b'-') (λ _. (write-Normalised m p, refl, refl))
      (λ _.
        if_cases P (is_digit ch || is_lower ch) (λ _. (λ x. inl refl, refl, refl))
          (λ _.
            if_cases P (ch == b'\r') (λ _. (λ x. inl refl, refl, refl))
              (λ _.
                if_cases P (ch == b'\n') (λ e. (refl, ==→eq ch b'\n' e, refl))
                  (λ _. (λ x. inl refl, refl, refl)))))

hl_name_step-Stepped :
    (m : Memory) (r : Request) (p : ℕ)
    → r.state ≡ hl_name
    → Stepped m r p (m p) (hl_name_step m r p (m p))
unfolding hl_name_step
hl_name_step-Stepped m r p s =
    let P = Stepped m r p (m p) in
    let ch = m p in
    if_cases P (is_upper ch || ch == b'-') (λ _. (write-Normalised m p, rw s, refl))
      (λ _.
        if_cases P (is_digit ch || is_lower ch) (λ _. (λ x. inl refl, rw s, refl))
          (λ _.
            if_cases P (ch == b':') (λ _. (λ x. inl refl, refl, refl))
              (λ _.
                if_cases P (ch == b'\r') (λ _. (λ x. inl refl, refl, refl))
                  (λ _. (λ x. inl refl, refl, refl)))))

header_line_step-Stepped :
    (s : LineState) (m : Memory) (r : Request) (p : ℕ)
    → in_header_line s ≡ true
    → r.state ≡ s
    → Stepped m r p (m p) (header_line_step s m r p (m p))
unfolding header_line_step hl_begin_step hl_ignore_step hl_name_step hl_colon_step hl_value_step
    hl_sp_after_value_step hl_almost_done_step
header_line_step-Stepped hl_begin m r p h e = hl_begin_step-Stepped m r p
header_line_step-Stepped hl_ignore m r p h e = ground arith
header_line_step-Stepped hl_name m r p h e = hl_name_step-Stepped m r p e
header_line_step-Stepped hl_colon m r p h e = ground arith
header_line_step-Stepped hl_sp_before_value m r p h e = ground arith
header_line_step-Stepped hl_value m r p h e = ground arith
header_line_step-Stepped hl_sp_after_value m r p h e = ground arith
header_line_step-Stepped hl_almost_done m r p h e = ground arith
header_line_step-Stepped _ m r p h e = cc

-- How a call on `n` bytes from `p` ends, with the memory it leaves. With `again` the buffer is used
-- up and the request is still among its headers. Otherwise the line ends at a line feed in the
-- range, the buffer begins behind it, the code tells whether there is a name, and the next line may
-- be read. Only the name, the value and the state of the request change with `begin`.
pub data Ended (m : Memory) (r : Request) (p n : ℕ)
    : Option (Code × Memory × Request) → Type 0 where
  unfinished :
      (m' : Memory) (r' : Request)
      → Normalised p (p + n) m m'
      → SameButHeader (record r { rb = record r.rb { begin = r.rb.end } }) r'
      → in_header_line r'.state ≡ true
      → Ended m r p n (some (again, m', r'))
  finished :
      (m' : Memory) (r' : Request) (q : ℕ)
      → p ≤ q
      → q < p + n
      → m q ≡ b'\n'
      → Normalised p q m m'
      → SameButHeader (record r { rb = record r.rb { begin = q + 1 } }) r'
      → r'.state ≡ hl_begin
      → Ended m r p n (some (header_code r', m', r'))

-- What is normal already stays so.
normal-normal : (v : ℕ) → normal (normal v) ≡ normal v
unfolding normal
normal-normal v = ground arith

Normalised-trans :
    {p q : ℕ} {m m1 m2 : Memory}
    → Normalised p (suc p) m m1
    → Normalised (suc p) q m1 m2
    → suc p ≤ q
    → Normalised p q m m2
Normalised-trans h k le x = ground (arith, h x, k x)

-- A line feed that is found in the new memory was there before.
line_feed_kept :
    {p : ℕ} {m m' : Memory} (q : ℕ)
    → Normalised p (suc p) m m'
    → suc p ≤ q
    → m' q ≡ b'\n'
    → m q ≡ b'\n'
line_feed_kept q h le e = ground (arith, h q)

SameButHeader-trans :
    (r r' s : Request) (b : ℕ)
    → SameButHeader r r'
    → SameButHeader (record r' { rb = record r'.rb { begin = b } }) s
    → SameButHeader (record r { rb = record r.rb { begin = b } }) s
SameButHeader-trans r r' s b e f =
    f
    ∙ ap
        (λ (t : Request). record t {
          rb = record t.rb { begin = b };
          state = s.state;
          header_name = s.header_name;
          header_value = s.header_value;
        })
        e

Ended-next :
    {m m' : Memory} {r r' : Request} {p n : ℕ} {result : Option (Code × Memory × Request)}
    → Normalised p (suc p) m m'
    → SameButHeader r r'
    → Ended m' r' (suc p) n result
    → Ended m r p (suc n) result
Ended-next {r} {r'} h e (unfinished m2 s k l i) =
    let same : r'.rb.end ≡ r.rb.end = ap (λ (t : Request). t.rb.end) e in
    unfinished m2 s (λ x. ground (arith, h x, k x))
      (SameButHeader-trans r r' s r.rb.end e
        (subst (λ x. SameButHeader (record r' { rb = record r'.rb { begin = x } }) s) same l))
      i
Ended-next {r} {r'} h e (finished m2 s q a b f k l g) =
    finished m2 s q (omega arith) (omega arith) (line_feed_kept q h a f) (Normalised-trans h k a)
      (SameButHeader-trans r r' s (q + 1) e l) g

-- What the loop does with the outcome of the switch.
header_line_loop-Ended :
    (n : ℕ) (m : Memory) (r : Request) (p : ℕ)
    → in_header_line r.state ≡ true
    → Ended m r p n (header_line_loop n m r p)
unfolding header_line_loop
header_line_loop-Ended zero m r p s = unfinished _ _ (λ x. inl refl) refl s
header_line_loop-Ended (suc n) m r p s =
    go (header_line_step r.state m r p (m p)) (header_line_step-Stepped r.state m r p s refl)
      (λ m' r'. header_line_loop-Ended n m' r' (suc p))
  where
    go :
        (step : Memory × Step)
        → Stepped m r p (m p) step
        → ((m' : Memory) (r' : Request)
            → in_header_line r'.state ≡ true
            → Ended m' r' (suc p) n (header_line_loop n m' r' (suc p)))
        → Ended m r p (suc n) (elim (step.1) [
          | next r' ↦ header_line_loop n step.0 r' (suc p)
          | goto_done r' ↦ some (header_code r', step.0, header_done r' p)
          | returned err r' ↦ some (err, step.0, r')
          | aborted ↦ none
        ])
    go (m', next r') (h, i, e) rest = Ended-next h e (rest m' r' i)
    go (m', goto_done r') (h, e, k) rest =
        finished m' (header_done r' p) p (omega arith) (omega arith) e (λ x. inl (ap (λ f. f x) h))
          (ap (λ (t : Request). header_done t p) k) refl
    go (m', returned err r') h rest = absurd h
    go (m', aborted) h rest = absurd h

-- A call of `parse_header_line` on a request among its headers never fails an `assert`, and ends in
-- one of two ways: `again`, with the buffer used up and the request still among its headers; or the
-- end of a line, at a line feed of the buffer, behind which the buffer then begins, with the code
-- `empty_line` if there is no name and `ok` if there is one. Nothing else of the request changes
-- but its state, name and value, and it writes only into the bytes that it has read, where capitals
-- become small letters and `-` becomes `_`.
pub parse_header_line-Ended :
    (m : Memory) (r : Request)
    → in_header_line r.state ≡ true
    → Ended m r r.rb.begin (size r.rb) (parse_header_line m r)
unfolding parse_header_line
parse_header_line-Ended m r s = header_line_loop-Ended (size r.rb) m r r.rb.begin s
