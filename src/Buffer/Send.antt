-- ===== src/Buffer/Send.antt =====
-- The loop of `sy_buffer_send` over a socket.
use sy_server.Base.{
  ℕ, ◌+◌, ◌-◌, ◌≤◌, ◌<◌, ◌≡◌, ◌≢◌, ◌⊎◌, inl, inr, refl, sym, ap, ◌∙◌, List, [], ◌∷◌, ◌++◌,
  Bool-cases, append_assoc, arith, ◌==◌, true,
}
use sy_server.Memory.{Memory, bytes}
use sy_server.Memory.Bytes.{bytes-append}
use sy_server.Buffer.{Buffer, IsBuffer, Departure, accepted, send, size, contents, clear}
use sy_server.Util.{Code, ok, min}

min_le : (x y : ℕ) → min x y ≤ y
unfolding min
min_le x y = ground arith

-- The bytes that the kernel takes before it answers otherwise.
abbrev pub capacity : List Departure → ℕ
capacity [] = 0
capacity (accepted n ∷ ds) = n + capacity ds
capacity (Departure.would_block ∷ ds) = 0
capacity (Departure.broken ∷ ds) = 0

-- What a call of `send` on `b` does, where the kernel takes `out` and `b'` is left.
abbrev pub Sent : Memory → Buffer → List Departure → Code × List ℕ × Buffer → Type 0
Sent m b ds (code, out, b') =
    (size b ≤ capacity ds) × (code ≡ ok) × (out ≡ contents m b) × (b' ≡ clear b)
    ⊎ (capacity ds < size b)
      × (code ≢ ok)
      × (out ++ contents m b' ≡ contents m b)
      × IsBuffer b'
      × (size b' ≡ size b - capacity ds)

Sent-none :
    (m : Memory) (b : Buffer) (ds : List Departure)
    → (size b == 0) ≡ true
    → Sent m b ds (ok, [], clear b)
Sent-none m b ds h =
    let e : size b ≡ 0 = ground arith in inl (omega (arith, e), refl, rw e refl, refl)

contents-split :
    (m : Memory) (b : Buffer) (k : ℕ)
    → k ≤ size b
    → contents m b ≡ bytes m b.begin k ++ contents m (record b { begin = b.begin + k })
contents-split m b k h =
    let e : k + (b.end - (b.begin + k)) ≡ size b = omega arith in
    rw e at (bytes-append m b.begin k (b.end - (b.begin + k)))

Sent-accepted :
    (m : Memory) (b : Buffer) (n : ℕ) (ds : List Departure) (r : Code × List ℕ × Buffer)
    → Sent m (record b { begin = b.begin + min n (size b) }) ds r
    → Sent m b (accepted n ∷ ds) (r.0, bytes m b.begin (min n (size b)) ++ r.1, r.2)
unfolding clear min
Sent-accepted m b n ds r (inl (s, e, o, c)) = inl (
  ground arith,
  e,
  ap (◌++◌ (bytes m b.begin (min n (size b)))) o
      ∙ sym (contents-split m b (min n (size b)) (min_le n (size b))),
  c,
)
Sent-accepted m b n ds r (inr (s, e, o, v, k)) = inr (
  ground arith,
  e,
  append_assoc (bytes m b.begin (min n (size b))) r.1 _
      ∙ ap (◌++◌ (bytes m b.begin (min n (size b)))) o
      ∙ sym (contents-split m b (min n (size b)) (min_le n (size b))),
  v,
  ground arith,
)

-- On a valid buffer a call of `send` hands the contents over in order, as far as the kernel takes
-- them. If it takes them all, the code is `ok` and the buffer is cleared. Otherwise the code is
-- another one, what the kernel took and what is left in the buffer are together the old contents,
-- only what it took is gone, and the buffer is valid.
pub send-Sent :
    (ds : List Departure) (m : Memory) (b : Buffer) → IsBuffer b → Sent m b ds (send ds m b)
unfolding send
send-Sent [] m b i = elim (Bool-cases (size b == 0)) [
  | inl e ↦ rw e (Sent-none m b [] e)
  | inr e ↦ rw e (inr (ground arith, cc, refl, i, omega arith))
]
send-Sent (Departure.would_block ∷ ds) m b i = elim (Bool-cases (size b == 0)) [
  | inl e ↦ rw e (Sent-none m b (Departure.would_block ∷ ds) e)
  | inr e ↦ rw e (inr (ground arith, cc, refl, i, omega arith))
]
send-Sent (Departure.broken ∷ ds) m b i = elim (Bool-cases (size b == 0)) [
  | inl e ↦ rw e (Sent-none m b (Departure.broken ∷ ds) e)
  | inr e ↦ rw e (inr (ground arith, cc, refl, i, omega arith))
]
send-Sent (accepted n ∷ ds) m b i = elim (Bool-cases (size b == 0)) [
  | inl e ↦ rw e (Sent-none m b (accepted n ∷ ds) e)
  | inr e ↦
      let h = min_le n (size b) in
      rw e (
        Sent-accepted m b n ds _ (
          send-Sent ds m (record b { begin = b.begin + min n (size b) })
            (record {
              start_le = omega (arith, i.start_le);
              begin_le = omega (arith, i.begin_le);
              end_le = i.end_le;
              limit_is = i.limit_is;
            })))
]
