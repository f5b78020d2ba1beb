-- ===== src/Handlers/Reading/Names.antt =====
-- The names of the table against the headers in the buffer.
use sy_server.Base.{
  subst, some, ℕ, suc, ◌+◌, ◌≤◌, ◌<◌, ◌≡◌, ◌⊎◌, ◌∙◌, List, [], ◌∷◌, ◌++◌, length, length-append,
  arith,
}
use sy_server.Memory.{Memory, Str}
use sy_server.Memory.Holds.{Holds}
use sy_server.Strings.Compare.{IsCText, Without}
use sy_server.Map.{put_all, empty_map}
use sy_server.Map.Absent.{AllKeys, AllKeys-map, IsKey, IsMissing, put_all-RunsOn}
use sy_server.Types.{HeaderField}
use sy_server.Handlers.Reading.{Processor, System}
use sy_server.Handlers.Reading.Section.{SameOutside, Unheard}

-- The key is a C string without a colon that stands before `lo` or from `hi` on.
pub record IsName (m : Memory) (lo hi : ℕ) (key : Str) : Type 0 where
  pub text : List ℕ
  pub c_text : IsCText m key text
  pub no_colon : Without b':' text
  pub apart : (key.addr + length text < lo) ⊎ (hi ≤ key.addr)

Holds-kept :
    (vs : List ℕ) (m m' : Memory) (a : ℕ)
    → ((x : ℕ) → a ≤ x → x < a + length vs → m' x ≡ m x)
    → Holds m a vs
    → Holds m' a vs
Holds-kept [] m m' a same h = tt
Holds-kept (v ∷ vs) m m' a same (h, t) = (
  same a (omega arith) (omega arith) ∙ h,
  Holds-kept vs m m' (suc a) (λ x ge lt. same x (omega arith) (omega arith)) t,
)

IsName-IsKey :
    (m m' : Memory) (lo hi : ℕ) (key : Str)
    → SameOutside lo hi m m'
    → IsName m lo hi key
    → IsKey m' b':' key
IsName-IsKey m m' lo hi key same name =
    let one = length-append name.text (0 ∷ []) in
    let away = name.apart in
    let held =
      Holds-kept (name.text ++ 0 ∷ []) m m' key.addr (λ x ge lt. same x (ground arith))
        name.c_text.held in
    (
      name.text,
      record {
        held = held;
        no_nul = name.c_text.no_nul;
        not_null = name.c_text.not_null;
        below = name.c_text.below;
      },
      name.no_colon,
    )

-- A table that has been filled with such names finds none of the headers.
pub put_all-Unheard :
    (sys : System) (m0 m : Memory) (lo hi : ℕ) (unset : HeaderField × Processor)
    (rows : List (Str × (HeaderField × Processor)))
    → put_all m0 (empty_map unset 131 262) rows ≡ some sys.header_map
    → AllKeys (IsName m lo hi) rows
    → Unheard sys m lo hi
put_all-Unheard sys m0 m lo hi unset rows filled names m' key text same on =
    subst (IsMissing m' key (262 < 131 + length rows)) filled (
      put_all-RunsOn unset 131 262 m0 m' rows key text b':' (omega arith)
        (AllKeys-map (IsName m lo hi) (IsKey m' b':') rows
          (λ k name. IsName-IsKey m m' lo hi k same name) names)
        on)
