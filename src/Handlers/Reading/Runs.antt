-- ===== src/Handlers/Reading/Runs.antt =====
-- The loops of the handlers in src/request.c without a bound on their rounds: a round is a function
-- of what the rounds behind it do, and a run is a finite sequence of rounds that ends.
use sy_server.Base.{◌≡◌, sym, ◌∙◌, subst}

-- A round from the state `w` under a loop: it has the result, or goes on.
pub data Run {A R : Type 0} (round : (A → R) → A → R) : A → R → Type 0 where
  ended : (w : A) (result : R) → ((next : A → R) → round next w ≡ result) → Run round w result
  onward :
      (w w' : A) (result : R)
      → ((next : A → R) → round next w ≡ next w')
      → Run round w' result
      → Run round w result

-- What one round does, whatever is behind it: it ends, or goes on in a state with the property.
pub data Turn {A R : Type 0} (P : A → Type 0) (round : (A → R) → R) : Type 0 where
  last : (result : R) → ((next : A → R) → round next ≡ result) → Turn P round
  further : (w : A) → P w → ((next : A → R) → round next ≡ next w) → Turn P round

-- One more round in front of `loop`, where the states that follow have runs with its results.
pub Run-Turn :
    {A R : Type 0} (P : A → Type 0) (round : (A → R) → A → R) (loop : A → R) (w : A)
    → Turn P (λ next. round next w)
    → ((v : A) → P v → Run round v (loop v))
    → Run round w (round loop w)
Run-Turn P round loop w (last result e) rest =
    ended w (round loop w) (λ next. e next ∙ sym (e loop))
Run-Turn P round loop w (further v p e) rest =
    onward w v (round loop w) e (subst (Run round v) (sym (e loop)) (rest v p))
