-- ===== src/Http/Uri/Counts.antt =====
-- What `sy_parse_uri` counts in a path: the entries, and the parts `..`.
use sy_server.Base.{ℕ, ◌+◌, ◌≡◌, refl, true, ◌==◌, leb, List, [], ◌∷◌, if◌then◌else◌, arith}
use sy_server.Memory.{Memory}
use sy_server.Types.{Uri, UriState, uri_slash, uri_dot, uri_ddot, uri_entry, uri_extension}
use sy_server.Http.Uri.{
  parse_uri, uri_step, slash_step, dot_step, ddot_step, entry_step, extension_step, count_entry,
}
use sy_server.Http.Uri.Path.{in_path, path_char, allowed-ne}

-- A part of a path, which is what stands between two slashes: it is empty (`slash`), `.`, `..`, an
-- entry without a dot, or an entry with one (`extension`). This is the part `s` with one more byte.
abbrev pub longer : UriState → ℕ → UriState
longer uri_slash ch = if ch == b'.' then uri_dot else uri_entry
longer uri_dot ch = if ch == b'.' then uri_ddot else uri_extension
longer uri_entry ch = if ch == b'.' then uri_extension else uri_entry
longer _ ch = uri_extension

-- The numbers of entries and of `..`.
pub record Counts : Type 0 where
  pub entries : ℕ
  pub ddots : ℕ

-- An entry counts as long as there are no more `..` than entries.
abbrev pub one_entry : Counts → Counts
one_entry c = if leb c.ddots c.entries then record c { entries = c.entries + 1 } else c

-- The numbers behind a part. An entry without a dot counts twice.
abbrev pub counted : UriState → Counts → Counts
counted uri_ddot c = record c { ddots = c.ddots + 1 }
counted uri_entry c = one_entry (one_entry c)
counted uri_extension c = one_entry c
counted _ c = c

-- The numbers behind a path whose first part goes on from `s`.
abbrev pub path_counts : UriState → Counts → List ℕ → Counts
path_counts s c [] = counted s c
path_counts s c (ch ∷ path) =
    path_counts (if ch == b'/' then uri_slash else longer s ch)
      (if ch == b'/' then counted s c else c) path

abbrev pub counts_of : Uri → Counts
counts_of u = record { entries = u.nentries; ddots = u.nddots }

-- One byte of the path.
abbrev pub CountsOn : UriState → Uri → ℕ → Uri → Type 0
CountsOn s u ch u' =
    (u'.state ≡ (if ch == b'/' then uri_slash else longer s ch))
    × (counts_of u' ≡ (if ch == b'/' then counted s (counts_of u) else counts_of u))

uri_step-CountsOn :
    (s : UriState) (u : Uri) (p ch : ℕ)
    → u.state ≡ s
    → in_path s ≡ true
    → path_char ch ≡ true
    → CountsOn s u ch (uri_step s u p ch).1
unfolding uri_step slash_step dot_step ddot_step entry_step extension_step count_entry
uri_step-CountsOn uri_slash u p ch e i h = ground (arith, allowed-ne ch)
uri_step-CountsOn uri_dot u p ch e i h = ground (arith, allowed-ne ch)
uri_step-CountsOn uri_ddot u p ch e i h = ground (arith, allowed-ne ch)
uri_step-CountsOn uri_entry u p ch e i h = ground (arith, allowed-ne ch)
uri_step-CountsOn uri_extension u p ch e i h = ground (arith, allowed-ne ch)
uri_step-CountsOn _ u p ch e i h = cc

-- The blank behind the path.
uri_step-counted :
    (s : UriState) (u : Uri) (p : ℕ)
    → in_path s ≡ true
    → counts_of (uri_step s u p b' ').1 ≡ counted s (counts_of u)
unfolding uri_step slash_step dot_step ddot_step entry_step extension_step count_entry
uri_step-counted uri_slash u p i = ground arith
uri_step-counted uri_dot u p i = ground arith
uri_step-counted uri_ddot u p i = ground arith
uri_step-counted uri_entry u p i = ground arith
uri_step-counted uri_extension u p i = ground arith
uri_step-counted _ u p i = cc

module _ (m : Memory) (u : Uri) (p : ℕ) (i : in_path u.state ≡ true) where
  pub parse_uri-CountsOn : path_char (m p) ≡ true → CountsOn u.state u (m p) (parse_uri m u p).1
  unfolding parse_uri
  parse_uri-CountsOn h = uri_step-CountsOn u.state u p (m p) refl i h

  pub parse_uri-counted : m p ≡ b' ' → counts_of (parse_uri m u p).1 ≡ counted u.state (counts_of u)
  unfolding parse_uri
  parse_uri-counted h = rw h (uri_step-counted u.state u p i)
