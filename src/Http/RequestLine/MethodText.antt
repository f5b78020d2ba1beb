-- ===== src/Http/RequestLine/MethodText.antt =====
-- The beginning of a request line: the method.
use sy_server.Base.{
  ℕ, zero, suc, ◌+◌, ◌-◌, ◌≤◌, ◌≡◌, refl, ap, ◌∙◌, true, false, arith, List, [], ◌∷◌, ◌++◌, length,
  ◌==◌, codes,
}
use sy_server.Memory.{Memory}
use sy_server.Memory.Holds.{Holds, Holds-append}
use sy_server.Types.{
  Method, connect, delete, get, head, options, post, put, trace, invalid, rl_begin, rl_method,
  rl_sp_before_uri, Request,
}
use sy_server.Http.Uri.{is_upper, starting}
use sy_server.Http.RequestLine.{
  request_line_loop, request_line_step, rl_begin_step, rl_method_step, parse_method, is_invalid,
}
use sy_server.Http.RequestLine.VersionText.{step-next}

abbrev pub method_name : Method → List ℕ
method_name connect = codes "CONNECT"
method_name delete = codes "DELETE"
method_name get = codes "GET"
method_name head = codes "HEAD"
method_name options = codes "OPTIONS"
method_name post = codes "POST"
method_name put = codes "PUT"
method_name trace = codes "TRACE"
method_name invalid = []

parse_method-name :
    (meth : Method) (m : Memory) (a : ℕ)
    → is_invalid meth ≡ false
    → Holds m a (method_name meth)
    → parse_method m a (a + length (method_name meth)) ≡ meth
unfolding parse_method is_invalid
parse_method-name connect m a i (h0, (h1, (h2, (h3, (h4, (h5, (h6, h7))))))) =
    let e : a + 7 - a ≡ 7 = omega arith in rw (e, h0, h1, h2, h3, h4, h5, h6)
parse_method-name delete m a i (h0, (h1, (h2, (h3, (h4, (h5, h6)))))) =
    let e : a + 6 - a ≡ 6 = omega arith in rw (e, h0, h1, h2, h3, h4, h5)
parse_method-name get m a i (h0, (h1, (h2, h3))) =
    let e : a + 3 - a ≡ 3 = omega arith in rw (e, h0, h1, h2)
parse_method-name head m a i (h0, (h1, (h2, (h3, h4)))) =
    let e : a + 4 - a ≡ 4 = omega arith in rw (e, h0, h1, h2, h3)
parse_method-name options m a i (h0, (h1, (h2, (h3, (h4, (h5, (h6, h7))))))) =
    let e : a + 7 - a ≡ 7 = omega arith in rw (e, h0, h1, h2, h3, h4, h5, h6)
parse_method-name post m a i (h0, (h1, (h2, (h3, h4)))) =
    let e : a + 4 - a ≡ 4 = omega arith in rw (e, h0, h1, h2, h3)
parse_method-name put m a i (h0, (h1, (h2, h3))) =
    let e : a + 3 - a ≡ 3 = omega arith in rw (e, h0, h1, h2)
parse_method-name trace m a i (h0, (h1, (h2, (h3, (h4, h5))))) =
    let e : a + 5 - a ≡ 5 = omega arith in rw (e, h0, h1, h2, h3, h4)
parse_method-name invalid m a i h = cc

abbrev NoBlank : List ℕ → Type 0
NoBlank [] = Unit {0}
NoBlank (ch ∷ text) = ((ch == b' ') ≡ false) × NoBlank text

request_line_loop-skip :
    (text : List ℕ) (n : ℕ) (m : Memory) (r : Request) (p : ℕ)
    → NoBlank text
    → r.state ≡ rl_method
    → Holds m p text
    → length text ≤ n
    → request_line_loop n m r p ≡ request_line_loop (n - length text) m r (p + length text)
unfolding request_line_step rl_method_step
request_line_loop-skip [] n m r p h st hold le =
    let e : n - 0 ≡ n = omega arith in let f : p + 0 ≡ p = omega arith in rw (e, f)
request_line_loop-skip (ch ∷ text) zero m r p h st hold le = absurd (omega arith)
request_line_loop-skip (ch ∷ text) (suc n) m r p (c, h) st (at, hold) le =
    let e : suc n - suc (length text) ≡ n - length text = omega arith in
    let f : p + suc (length text) ≡ suc p + length text = omega arith in
    rw (e, f)
      (step-next n m r p r (ap (λ s. request_line_step s m r p (m p)) st ∙ rw (at, c))
        ∙ request_line_loop-skip text n m r (suc p) h st hold (omega arith))

-- A capital and then no blank.
abbrev IsName : List ℕ → Type 0
IsName [] = ⊥
IsName (ch ∷ text) = (is_upper ch ≡ true) × NoBlank text

method_name-IsName : (meth : Method) → is_invalid meth ≡ false → IsName (method_name meth)
unfolding is_invalid
method_name-IsName connect i = (refl, (refl, (refl, (refl, (refl, (refl, (refl, tt)))))))
method_name-IsName delete i = (refl, (refl, (refl, (refl, (refl, (refl, tt))))))
method_name-IsName get i = (refl, (refl, (refl, tt)))
method_name-IsName head i = (refl, (refl, (refl, (refl, tt))))
method_name-IsName options i = (refl, (refl, (refl, (refl, (refl, (refl, (refl, tt)))))))
method_name-IsName post i = (refl, (refl, (refl, (refl, tt))))
method_name-IsName put i = (refl, (refl, (refl, tt)))
method_name-IsName trace i = (refl, (refl, (refl, (refl, (refl, tt)))))
method_name-IsName invalid i = cc

-- What a name of a method from `p` makes of a request.
abbrev pub with_method : Request → Method → ℕ → Request
with_method r meth p = record r {
  method = meth;
  request_line = starting r.request_line p;
  state = rl_sp_before_uri;
}

-- A text that reads as the method, and a blank.
request_line_loop-name :
    (text : List ℕ) (meth : Method) (n : ℕ) (m : Memory) (r : Request) (p : ℕ)
    → IsName text
    → is_invalid meth ≡ false
    → r.state ≡ rl_begin
    → Holds m p (text ++ b' ' ∷ [])
    → parse_method m p (p + length text) ≡ meth
    → length text + 1 ≤ n
    → request_line_loop n m r p
      ≡ request_line_loop (n - (length text + 1)) m (with_method r meth p) (p + (length text + 1))
unfolding request_line_step rl_begin_step rl_method_step
request_line_loop-name [] meth n m r p name valid st hold found le = absurd name
request_line_loop-name (ch ∷ text) meth zero m r p name valid st hold found le =
    absurd (omega arith)
request_line_loop-name (ch ∷ text) meth (suc n) m r p (c, h) valid st (at, hold) found le =
    let r1 = record r { request_line = starting r.request_line p; state = rl_method } in
    let q = suc p + length text in
    let (inside, (blank, _)) = Holds-append m (suc p) text (b' ' ∷ []) hold in
    let e : n - length text ≡ suc (suc n - (suc (length text) + 1)) = omega arith in
    let f : p + (suc (length text) + 1) ≡ suc q = omega arith in
    let g : p + suc (length text) ≡ q = omega arith in
    let found' : parse_method m p q ≡ meth = rw g at found in
    let first = step-next n m r p r1 (ap (λ s. request_line_step s m r p (m p)) st ∙ rw (at, c)) in
    let skip = request_line_loop-skip text n m r1 (suc p) h refl inside (omega arith) in
    let last =
      step-next (suc n - (suc (length text) + 1)) m r1 q (with_method r meth p)
        (rw (blank, found', valid)) in
    first ∙ skip ∙ rw (e, f) last

pub request_line_loop-method :
    (meth : Method) (n : ℕ) (m : Memory) (r : Request) (p : ℕ)
    → is_invalid meth ≡ false
    → r.state ≡ rl_begin
    → Holds m p (method_name meth ++ b' ' ∷ [])
    → length (method_name meth) + 1 ≤ n
    → request_line_loop n m r p
      ≡ request_line_loop
          (n - (length (method_name meth) + 1))
          m
          (with_method r meth p)
          (p + (length (method_name meth) + 1))
request_line_loop-method meth n m r p valid st hold le =
    let (name, _) = Holds-append m p (method_name meth) (b' ' ∷ []) hold in
    request_line_loop-name (method_name meth) meth n m r p (method_name-IsName meth valid) valid st
      hold (parse_method-name meth m p valid name) le
