-- ===== src/Response/Mime.antt =====
-- The table of the types of a resource by its extension, and `sy_mime_map_init`.
use sy_server.Base.{Option, ℕ, ◌*◌, List, [], ◌∷◌}
use sy_server.Memory.{Memory, Str, null_str}
use sy_server.Strings.{string_init}
use sy_server.Map.{Map, put_all, empty_map}
use Prim.Native.String.{String}

abbrev pub mime_tb : List (String × String)
mime_tb =
    ("htm", "text/html")
    ∷ ("html", "text/html")
    ∷ ("gif", "image/gif")
    ∷ ("ico", "image/x-icon")
    ∷ ("jpeg", "image/jpeg")
    ∷ ("jpg", "image/jpeg")
    ∷ ("png", "image/png")
    ∷ ("svg", "image/svg+xml")
    ∷ ("txt", "text/plain")
    ∷ ("zip", "application/zip")
    ∷ ("css", "text/css")
    ∷ []

abbrev pub mime_rows : (String → ℕ) → List (String × String) → List (Str × Str)
mime_rows literal [] = []
mime_rows literal ((extension, kind) ∷ rows) =
    (string_init literal extension, string_init literal kind) ∷ mime_rows literal rows

unfoldable pub mime_map_init : Memory → (String → ℕ) → Option (Map Str)
unfolding put_all
mime_map_init m literal = put_all m (empty_map null_str 131 (2 * 131)) (mime_rows literal mime_tb)
