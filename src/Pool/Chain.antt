-- ===== src/Pool/Chain.antt =====
-- Objects in a chain, and what a new chunk is.
use sy_server.Base.{
  ℕ, zero, suc, ◌+◌, ◌-◌, ◌≤◌, ◌<◌, ◌≡◌, ◌≢◌, inl, refl, sym, ◌∙◌, subst, some, List, [], ◌∷◌,
  ne→==, arith,
}
use sy_server.Memory.{write}
use sy_server.Memory.Bytes.{write_other, write_same}
use sy_server.Util.{ok}
use sy_server.Pool.{Words, chunk_loop, chunk_init}

-- From the pointer `p` the objects `xs` are chained.
abbrev pub Chained : Words → ℕ → List ℕ → Type 0
Chained w p [] = p ≡ 0
Chained w p (x ∷ xs) = (p ≡ x) × (0 < x) × Chained w (w x) xs

-- None of the objects is `y`.
abbrev pub NoneIs : ℕ → List ℕ → Type 0
NoneIs y [] = Unit {0}
NoneIs y (x ∷ xs) = (x ≢ y) × NoneIs y xs

pub Chained-write :
    (xs : List ℕ) (w : Words) (p y v : ℕ)
    → NoneIs y xs
    → Chained w p xs
    → Chained (write w y v) p xs
Chained-write [] w p y v away c = c
Chained-write (x ∷ xs) w p y v (ne, away) (at, lo, c) =
    let same : write w y v x ≡ w x = write_other w y v x (omega arith) in
    (
      at,
      lo,
      subst (λ q. Chained (write w y v) q xs) (sym same) (Chained-write xs w (w x) y v away c),
    )

-- `n` objects of a width from an address on.
abbrev pub objects : ℕ → ℕ → ℕ → List ℕ
objects zero width addr = []
objects (suc n) width addr = addr ∷ objects n width (addr + width)

-- What the loop writes lies from its address on.
chunk_loop-before :
    (n width addr : ℕ) (w : Words) (x : ℕ) → x < addr → (chunk_loop n width addr w).0 x ≡ w x
unfolding chunk_loop
chunk_loop-before zero width addr w x lt = refl
chunk_loop-before (suc n) width addr w x lt =
    chunk_loop-before n width (addr + width) (write w addr (addr + width)) x (omega arith)
    ∙ write_other w addr (addr + width) x (omega arith)

chunk_loop-last : (n width addr : ℕ) (w : Words) → addr ≤ (chunk_loop n width addr w).1
unfolding chunk_loop
chunk_loop-last zero width addr w = omega arith
chunk_loop-last (suc n) width addr w =
    let more = chunk_loop-last n width (addr + width) (write w addr (addr + width)) in omega arith

chunk_loop-Chained :
    (n width addr : ℕ) (w : Words)
    → 0 < width
    → 0 < addr
    → (let (w', last) = chunk_loop n width addr w in
        Chained (write w' last 0) addr (objects (suc n) width addr))
unfolding chunk_loop
chunk_loop-Chained zero width addr w wide lo = (refl, lo, write_same w addr 0)
chunk_loop-Chained (suc n) width addr w wide lo =
    let w1 = write w addr (addr + width) in
    let more = chunk_loop-Chained n width (addr + width) w1 wide (omega arith) in
    let (w', last) = chunk_loop n width (addr + width) w1 in
    let far = chunk_loop-last n width (addr + width) w1 in
    let word : write w' last 0 addr ≡ addr + width =
      write_other w' last 0 addr (inl (omega arith))
      ∙ chunk_loop-before n width (addr + width) w1 addr (omega arith)
      ∙ write_same w addr (addr + width) in
    (
      refl,
      lo,
      subst (λ q. Chained (write w' last 0) q (objects (suc n) width (addr + width))) (sym word)
          more,
    )

pub chunk_init-Chained :
    (answer width n : ℕ) (w : Words)
    → 0 < answer
    → 0 < width
    → (w' : Words) × (chunk_init answer width (suc n) w ≡ some (ok, answer, w'))
      × Chained w' answer (objects (suc n) width answer)
unfolding chunk_init
chunk_init-Chained answer width n w given wide =
    let e : suc n - 1 ≡ n = omega arith in
    let made = chunk_loop (suc n - 1) width answer w in
    (
      write made.0 made.1 0,
      rw (ne→== width 0 (omega arith), ne→== answer 0 (omega arith), ne→== (suc n) 0 (omega arith))
          refl,
      subst
          (λ k.
            Chained (write (chunk_loop k width answer w).0 (chunk_loop k width answer w).1 0) answer
              (objects (suc n) width answer))
          (sym e) (chunk_loop-Chained n width answer w wide given),
    )
