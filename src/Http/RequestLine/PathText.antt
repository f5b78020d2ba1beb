-- ===== src/Http/RequestLine/PathText.antt =====
-- The middle of a request line: a path between blanks.
use sy_server.Base.{
  ℕ, zero, suc, ◌+◌, ◌-◌, ◌≤◌, ◌≡◌, refl, ap, subst, ◌∙◌, true, false, arith, List, [], ◌∷◌, ◌++◌,
  length, ◌==◌, if◌then◌else◌, ltb,
}
use sy_server.Memory.{Memory}
use sy_server.Memory.Holds.{Holds, Holds-append}
use sy_server.Types.{
  rl_sp_before_uri, rl_uri, rl_sp_before_version, uri_slash, Uri, UriState, Request,
}
use sy_server.Util.{Code, ok}
use sy_server.Http.Step.{Step, next}
use sy_server.Http.Uri.{parse_uri, allowed_in_abs_path, uri_step, begin_step, starting}
use sy_server.Http.Uri.Path.{
  in_path, path_char, SameOutsidePath-trans, InPath, PathEnded, SameOutsidePath, parse_uri-InPath,
  parse_uri-PathEnded,
}
use sy_server.Http.Uri.Counts.{
  longer, Counts, counted, path_counts, counts_of, CountsOn, parse_uri-CountsOn, parse_uri-counted,
}
use sy_server.Http.RequestLine.{
  request_line_loop, request_line_step, rl_sp_before_uri_step, rl_uri_step, after_uri, confine,
  is_break,
}
use sy_server.Http.RequestLine.VersionText.{step-next}

abbrev pub IsPath : List ℕ → Type 0
IsPath [] = Unit {0}
IsPath (ch ∷ path) = (path_char ch ≡ true) × IsPath path

path_char-ne : (ch : ℕ) → path_char ch ≡ true → (is_break ch ≡ false) × ((ch == b' ') ≡ false)
unfolding allowed_in_abs_path
path_char-ne ch h = ground arith

after_uri-ok :
    (parsed : Code × Uri) (r : Request) (step : Step)
    → parsed.0 ≡ ok
    → after_uri parsed r step ≡ step
unfolding after_uri
after_uri-ok (c, u) r step e = rw e

rl_uri_step-path :
    (m : Memory) (r : Request) (p : ℕ)
    → path_char (m p) ≡ true
    → InPath r.uri (parse_uri m r.uri p)
    → rl_uri_step m r p (m p) ≡ next (record r { uri = (parse_uri m r.uri p).1 })
unfolding rl_uri_step
rl_uri_step-path m r p h i =
    let (b, s) = path_char-ne (m p) h in rw (b, s) (after_uri-ok (parse_uri m r.uri p) r _ i.0)

path_counts-on :
    (s : UriState) (u u1 : Uri) (ch : ℕ) (path : List ℕ)
    → CountsOn s u ch u1
    → path_counts u1.state (counts_of u1) path ≡ path_counts s (counts_of u) (ch ∷ path)
path_counts-on s u u1 ch path (e, f) =
    ap (λ t. path_counts t (counts_of u1) path) e
    ∙ ap (λ c. path_counts (if ch == b'/' then uri_slash else longer s ch) c path) f

request_line_loop-path :
    (path : List ℕ) (n : ℕ) (m : Memory) (r : Request) (p : ℕ)
    → IsPath path
    → r.state ≡ rl_uri
    → in_path r.uri.state ≡ true
    → Holds m p path
    → length path ≤ n
    → (u : Uri) × (request_line_loop n m r p
        ≡ request_line_loop (n - length path) m (record r { uri = u }) (p + length path))
      × (in_path u.state ≡ true)
      × (u.abs_path ≡ r.uri.abs_path)
      × SameOutsidePath r.uri u
      × (counted u.state (counts_of u) ≡ path_counts r.uri.state (counts_of r.uri) path)
unfolding request_line_step
request_line_loop-path [] n m r p h st i hold le =
    let e : n - 0 ≡ n = omega arith in
    let f : p + 0 ≡ p = omega arith in (r.uri, rw (e, f), i, refl, (refl, refl, refl, refl), refl)
request_line_loop-path (ch ∷ path) zero m r p h st i hold le = absurd (omega arith)
request_line_loop-path (ch ∷ path) (suc n) m r p (c, h) st i (at, hold) le =
    let here : path_char (m p) ≡ true = rw at c in
    let read = parse_uri-InPath m r.uri p i here in
    let u1 = (parse_uri m r.uri p).1 in
    let (u, more, j, a, same, tally) =
      request_line_loop-path path n m (record r { uri = u1 }) (suc p) h st read.1 hold
        (omega arith) in
    let e : suc n - suc (length path) ≡ n - length path = omega arith in
    let f : p + suc (length path) ≡ suc p + length path = omega arith in
    (
      u,
      rw (e, f)
          (step-next n m r p (record r { uri = u1 })
              (ap (λ s. request_line_step s m r p (m p)) st ∙ rl_uri_step-path m r p here read)
            ∙ more),
      j,
      a ∙ read.2,
      SameOutsidePath-trans r.uri u1 u read.3 same,
      tally
          ∙ path_counts-on r.uri.state r.uri u1 ch path (
              subst (λ c. CountsOn r.uri.state r.uri c u1) at
                (parse_uri-CountsOn m r.uri p i here)),
    )

-- What a path of `k` bytes from `p`, with the numbers `c`, leaves of the URI `u`: the path, cut down
-- to the first byte if it has more `..` than entries, and the numbers.
pub record PathRead (u : Uri) (p k : ℕ) (c : Counts) (u' : Uri) : Type 0 where
  pub begins : u'.abs_path.addr ≡ p
  pub ends : u'.abs_path.len ≡ (if ltb c.entries c.ddots then 1 else k)
  pub counts : counts_of u' ≡ c
  pub same : SameOutsidePath u u'

confine-PathRead :
    (u u' : Uri) (p k : ℕ) (c : Counts)
    → u'.abs_path.addr ≡ p
    → u'.abs_path.len ≡ k
    → counts_of u' ≡ c
    → SameOutsidePath u u'
    → PathRead u p k c (confine u')
unfolding confine
confine-PathRead u u' p k c a l e s = ground arith

rl_uri_step-blank :
    (m : Memory) (r : Request) (p : ℕ)
    → m p ≡ b' '
    → PathEnded r.uri p (parse_uri m r.uri p)
    → rl_uri_step m r p b' '
      ≡ next (record r { state = rl_sp_before_version; uri = confine (parse_uri m r.uri p).1 })
unfolding rl_uri_step
rl_uri_step-blank m r p h i = after_uri-ok (parse_uri m r.uri p) _ _ i.0

-- The slash at the beginning of a path.
rl_sp_before_uri_step-slash :
    (m : Memory) (r : Request) (p : ℕ)
    → m p ≡ b'/'
    → rl_sp_before_uri_step m r p b'/'
      ≡ next (record r {
        uri = record r.uri { abs_path = starting r.uri.abs_path p; state = uri_slash };
        state = rl_uri;
      })
unfolding rl_sp_before_uri_step parse_uri uri_step begin_step
rl_sp_before_uri_step-slash m r p h = rw (h, after_uri)

-- A path between the blank before it and the blank behind it.
pub request_line_loop-uri :
    (path : List ℕ) (n : ℕ) (m : Memory) (r : Request) (p : ℕ)
    → IsPath path
    → r.state ≡ rl_sp_before_uri
    → Holds m p (b'/' ∷ path ++ b' ' ∷ [])
    → length path + 2 ≤ n
    → (u : Uri) × (request_line_loop n m r p
        ≡ request_line_loop
            (n - (length path + 2))
            m
            (record r { state = rl_sp_before_version; uri = u })
            (p + (length path + 2)))
      × PathRead r.uri p (length path + 1) (path_counts uri_slash (counts_of r.uri) path) u
unfolding request_line_step
request_line_loop-uri path zero m r p h st hold le = absurd (omega arith)
request_line_loop-uri path (suc n) m r p h st (slash, hold) le =
    let u0 = record r.uri { abs_path = starting r.uri.abs_path p; state = uri_slash } in
    let (inside, (blank, _)) = Holds-append m (suc p) path (b' ' ∷ []) hold in
    let (u1, run, i, a, same, tally) =
      request_line_loop-path path n m (record r { uri = u0; state = rl_uri }) (suc p) h refl refl
        inside (omega arith) in
    let r1 = record r { uri = u1; state = rl_uri } in
    let q = suc p + length path in
    let ended = parse_uri-PathEnded m u1 q i blank in
    let u2 = (parse_uri m u1 q).1 in
    let e : n - length path ≡ suc (suc n - (length path + 2)) = omega arith in
    let f : suc q ≡ p + (length path + 2) = omega arith in
    let first =
      step-next n m r p (record r { uri = u0; state = rl_uri })
        (simp (st, slash) (rl_sp_before_uri_step-slash m r p slash)) in
    let last =
      step-next (suc n - (length path + 2)) m r1 q
        (record r { state = rl_sp_before_version; uri = confine u2 })
        (simp blank (rl_uri_step-blank m r1 q blank ended)) in
    let begins : u1.abs_path.addr ≡ p = ap (λ s. s.addr) a in
    let addr : u2.abs_path.addr ≡ p = ap (λ s. s.addr) ended.1 ∙ begins in
    let len : u2.abs_path.len ≡ q - u1.abs_path.addr = ap (λ s. s.len) ended.1 in
    (
      confine u2,
      first ∙ run ∙ rw (e, ← f) last,
      confine-PathRead r.uri u2 p (length path + 1) (path_counts uri_slash (counts_of r.uri) path)
          addr (omega arith) (parse_uri-counted m u1 q i blank ∙ tally)
          (SameOutsidePath-trans r.uri u1 u2 same ended.2),
    )
