-- ===== src/Http/Uri/Path.antt =====
-- The states of `sy_parse_uri` that read a path.
use sy_server.Base.{ℕ, ◌≡◌, refl, Bool, true, false, ◌||◌, ◌==◌, arith, if_cases, ◌∙◌}
use sy_server.Memory.{Memory}
use sy_server.Types.{Uri, UriState, uri_slash, uri_dot, uri_ddot, uri_entry, uri_extension}
use sy_server.Util.{Code, ok}
use sy_server.Http.Uri.{
  parse_uri, uri_step, slash_step, dot_step, ddot_step, entry_step, extension_step, count_entry,
  allowed_in_abs_path, starting, ending,
}

abbrev pub in_path : UriState → Bool
in_path uri_slash = true
in_path uri_dot = true
in_path uri_ddot = true
in_path uri_entry = true
in_path uri_extension = true
in_path _ = false

-- The bytes of a path.
abbrev pub path_char : ℕ → Bool
path_char ch = ch == b'/' || ch == b'.' || allowed_in_abs_path ch

-- The parts of a URI that stand before its path, and its query.
abbrev pub SameOutsidePath : Uri → Uri → Type 0
SameOutsidePath u u' =
    (u'.scheme ≡ u.scheme) × (u'.host ≡ u.host) × (u'.port ≡ u.port) × (u'.query ≡ u.query)

pub SameOutsidePath-trans :
    (u u1 u2 : Uri) → SameOutsidePath u u1 → SameOutsidePath u1 u2 → SameOutsidePath u u2
SameOutsidePath-trans u u1 u2 (s, h, o, q) (s', h', o', q') = (s' ∙ s, h' ∙ h, o' ∙ o, q' ∙ q)

-- One more byte of the path.
abbrev pub InPath : Uri → Code × Uri → Type 0
InPath u (c, u') =
    (c ≡ ok) × (in_path u'.state ≡ true) × (u'.abs_path ≡ u.abs_path) × SameOutsidePath u u'

-- A byte that is allowed is none of those that end a part of the path.
pub allowed-ne :
    (ch : ℕ)
    → allowed_in_abs_path ch ≡ true
    → ((ch == b' ') ≡ false)
      × ((ch == b'/') ≡ false)
      × ((ch == b'.') ≡ false)
      × ((ch == b'?') ≡ false)
unfolding allowed_in_abs_path
allowed-ne ch h = ground arith

extension_step-InPath :
    (u : Uri) (p ch : ℕ)
    → in_path u.state ≡ true
    → path_char ch ≡ true
    → InPath u (extension_step u p ch)
unfolding extension_step count_entry
extension_step-InPath u p ch e h = ground (arith, allowed-ne ch)

count_entry-Same :
    (u : Uri) (s : UriState)
    → let u' = record (count_entry u) { state = s } in
      (u'.abs_path ≡ u.abs_path) × SameOutsidePath u u'
unfolding count_entry
count_entry-Same u s = ground arith

InPath-same :
    (u u1 : Uri) (r : Code × Uri)
    → (u1.abs_path ≡ u.abs_path) × SameOutsidePath u u1
    → InPath u1 r
    → InPath u r
InPath-same u u1 r (a, same) (c, i, a', same') =
    (c, i, a' ∙ a, SameOutsidePath-trans u u1 r.1 same same')

entry_step-InPath :
    (u : Uri) (p ch : ℕ)
    → in_path u.state ≡ true
    → path_char ch ≡ true
    → InPath u (entry_step u p ch)
unfolding entry_step
entry_step-InPath u p ch i h =
    let P = InPath u in
    if_cases P (ch == b' ') (λ e. absurd (ground (arith, allowed-ne ch)))
      (λ blank.
        if_cases P (ch == b'.')
          (λ _.
            extension_step-InPath
              (record u { extension = starting u.extension p; state = uri_extension }) p ch refl h)
          (λ dot.
            if_cases P (ch == b'?') (λ e. absurd (ground (arith, allowed-ne ch)))
              (λ _.
                if_cases P (ch == b'/')
                  (λ _.
                    let u1 = record (count_entry u) { state = uri_slash } in
                    InPath-same u u1 (extension_step u1 p ch) (count_entry-Same u uri_slash)
                      (extension_step-InPath u1 p ch refl h))
                  (λ slash.
                    if_cases P (allowed_in_abs_path ch) (λ _. extension_step-InPath u p ch i h)
                      (λ refused. absurd (ground arith))))))

uri_step-InPath :
    (s : UriState) (u : Uri) (p ch : ℕ)
    → u.state ≡ s
    → in_path s ≡ true
    → path_char ch ≡ true
    → InPath u (uri_step s u p ch)
unfolding uri_step slash_step dot_step ddot_step entry_step extension_step count_entry
uri_step-InPath uri_slash u p ch e i h = ground (arith, allowed-ne ch)
uri_step-InPath uri_dot u p ch e i h = ground (arith, allowed-ne ch)
uri_step-InPath uri_ddot u p ch e i h = ground (arith, allowed-ne ch)
uri_step-InPath uri_entry u p ch e i h = entry_step-InPath u p ch (rw e) h
uri_step-InPath uri_extension u p ch e i h = extension_step-InPath u p ch (rw e) h
uri_step-InPath _ u p ch e i h = cc

-- The blank behind the path.
abbrev pub PathEnded : Uri → ℕ → Code × Uri → Type 0
PathEnded u p (c, u') = (c ≡ ok) × (u'.abs_path ≡ ending u.abs_path p) × SameOutsidePath u u'

uri_step-PathEnded :
    (s : UriState) (u : Uri) (p : ℕ) → in_path s ≡ true → PathEnded u p (uri_step s u p b' ')
unfolding uri_step slash_step dot_step ddot_step entry_step extension_step count_entry
uri_step-PathEnded uri_slash u p i = ground arith
uri_step-PathEnded uri_dot u p i = ground arith
uri_step-PathEnded uri_ddot u p i = ground arith
uri_step-PathEnded uri_entry u p i = ground arith
uri_step-PathEnded uri_extension u p i = ground arith
uri_step-PathEnded _ u p i = cc

module _ (m : Memory) (u : Uri) (p : ℕ) (i : in_path u.state ≡ true) where
  pub parse_uri-InPath : path_char (m p) ≡ true → InPath u (parse_uri m u p)
  unfolding parse_uri
  parse_uri-InPath h = uri_step-InPath u.state u p (m p) refl i h

  pub parse_uri-PathEnded : m p ≡ b' ' → PathEnded u p (parse_uri m u p)
  unfolding parse_uri
  parse_uri-PathEnded h = rw h (uri_step-PathEnded u.state u p i)
