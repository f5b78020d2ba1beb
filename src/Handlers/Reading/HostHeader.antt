-- ===== src/Handlers/Reading/HostHeader.antt =====
-- `sy_parse_header_host` of src/httpparse.c.
use sy_server.Base.{
  ℕ, zero, suc, ◌+◌, ◌-◌, ◌<◌, ◌≡◌, refl, ap, ◌∙◌, ◌==◌, ℤ, List, [], ◌∷◌, ◌++◌, length, ne→==,
  if◌then◌else◌, arith,
}
use sy_server.Memory.{Memory}
use sy_server.Memory.Holds.{Holds}
use sy_server.Strings.Compare.{Without}
use sy_server.Types.{HeaderField, Request}
use sy_server.Handlers.Reading.Resource.{to_u16}

-- The loop, with `n` bytes left from `p`, and 0 for NULL: the last colon.
unfoldable pub colon_loop : ℕ → Memory → ℕ → ℕ → ℕ
colon_loop zero m p semicolon = semicolon
colon_loop (suc n) m p semicolon = colon_loop n m (suc p) (if m p == b':' then p else semicolon)

-- `atoi` is that of C.
unfoldable pub parse_header_host : (Memory → ℕ → ℤ) → Memory → Request → Request
unfolding colon_loop
parse_header_host atoi m r =
    let host = r.headers HeaderField.host in
    let semicolon = colon_loop host.len m host.addr 0 in
    if semicolon == 0 then record r { host = host; port = 80 } else record r {
      host = record { addr = host.addr; len = semicolon - host.addr };
      port = to_u16 (atoi m (semicolon + 1));
    }

colon_loop-Without :
    (text : List ℕ) (m : Memory) (p semicolon : ℕ)
    → Without b':' text
    → Holds m p text
    → colon_loop (length text) m p semicolon ≡ semicolon
unfolding colon_loop
colon_loop-Without [] m p semicolon without hold = refl
colon_loop-Without (v ∷ text) m p semicolon (_, ne, without) (at, hold) =
    let here : (if m p == b':' then p else semicolon) ≡ semicolon =
      ap (λ c. if c == b':' then p else semicolon) at ∙ ap (λ b. if b then p else semicolon) ne in
    ap (colon_loop (length text) m (suc p)) here
    ∙ colon_loop-Without text m (suc p) semicolon without hold

colon_loop-last :
    (name text : List ℕ) (m : Memory) (p semicolon : ℕ)
    → Without b':' text
    → Holds m p (name ++ b':' ∷ text)
    → colon_loop (length (name ++ b':' ∷ text)) m p semicolon ≡ p + length name
unfolding colon_loop
colon_loop-last [] text m p semicolon without (at, hold) =
    let e : p ≡ p + 0 = omega arith in
    ap (colon_loop (length text) m (suc p)) (ap (λ c. if c == b':' then p else semicolon) at)
    ∙ colon_loop-Without text m (suc p) p without hold
    ∙ e
colon_loop-last (v ∷ name) text m p semicolon without (at, hold) =
    let e : suc p + length name ≡ p + suc (length name) = omega arith in
    colon_loop-last name text m (suc p) (if m p == b':' then p else semicolon) without hold ∙ e

-- The header `Host` is split at its last colon: the name before it is the host of the request, and
-- what `atoi` makes of the text behind it is the port, cut to 16 bits.
pub parse_header_host-split :
    (atoi : Memory → ℕ → ℤ) (m : Memory) (r : Request) (name text : List ℕ)
    → Without b':' text
    → 0 < (r.headers HeaderField.host).addr
    → Holds m (r.headers HeaderField.host).addr (name ++ b':' ∷ text)
    → (r.headers HeaderField.host).len ≡ length (name ++ b':' ∷ text)
    → parse_header_host atoi m r ≡ record r {
      host = record { addr = (r.headers HeaderField.host).addr; len = length name };
      port = to_u16 (atoi m ((r.headers HeaderField.host).addr + length name + 1));
    }
unfolding parse_header_host
parse_header_host-split atoi m r name text without lo hold len =
    let a = (r.headers HeaderField.host).addr in
    let with_colon : ℕ → Request =
      λ s. record r { host = record { addr = a; len = s - a }; port = to_u16 (atoi m (s + 1)) } in
    let whole = record r { host = r.headers HeaderField.host; port = 80 } in
    let found = ap (λ n. colon_loop n m a 0) len ∙ colon_loop-last name text m a 0 without hold in
    let e : a + length name - a ≡ length name = omega arith in
    ap (λ s. if s == 0 then whole else with_colon s) found
    ∙ ap (λ b. if b then whole else with_colon (a + length name))
        (ne→== (a + length name) 0 (omega arith))
    ∙ ap
        (λ n. record r {
          host = record { addr = a; len = n };
          port = to_u16 (atoi m (a + length name + 1));
        })
        e
