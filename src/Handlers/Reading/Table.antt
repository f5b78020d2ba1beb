-- ===== src/Handlers/Reading/Table.antt =====
-- The table of the headers with their processors, and `sy_header_map_init`.
use sy_server.Base.{Option, ℕ, ◌*◌, List, [], ◌∷◌}
use sy_server.Memory.{Memory, Str}
use sy_server.Strings.{string_init}
use sy_server.Map.{Map, put_all, empty_map}
use sy_server.Types.{HeaderField}
use sy_server.Handlers.Reading.{
  Processor, generic, hop, t_encoding, body_length, target, preference, since,
}
use Prim.Native.String.{String}

-- The names of the headers, each with its field and its processor.
abbrev pub header_tb : List (String × HeaderField × Processor)
header_tb =
    ("cache_control", HeaderField.cache_control, generic)
    ∷ ("c", HeaderField.c, hop)
    ∷ ("date", HeaderField.date, generic)
    ∷ ("pragma", HeaderField.pragma, generic)
    ∷ ("trailer", HeaderField.trailer, generic)
    ∷ ("transfer_encoding", HeaderField.transfer_encoding, t_encoding)
    ∷ ("upgrade", HeaderField.upgrade, generic)
    ∷ ("via", HeaderField.via, generic)
    ∷ ("warning", HeaderField.warning, generic)
    ∷ ("allow", HeaderField.allow, generic)
    ∷ ("content_encoding", HeaderField.content_encoding, generic)
    ∷ ("content_language", HeaderField.content_language, generic)
    ∷ ("content_length", HeaderField.content_length, body_length)
    ∷ ("content_location", HeaderField.content_location, generic)
    ∷ ("content_md5", HeaderField.content_md5, generic)
    ∷ ("content_range", HeaderField.content_range, generic)
    ∷ ("content_type", HeaderField.content_type, generic)
    ∷ ("expires", HeaderField.expires, generic)
    ∷ ("last_modified", HeaderField.last_modified, generic)
    ∷ ("accept", HeaderField.accept, preference)
    ∷ ("accept_charset", HeaderField.accept_charset, generic)
    ∷ ("accept_encoding", HeaderField.accept_encoding, generic)
    ∷ ("authorization", HeaderField.authorization, generic)
    ∷ ("cookie", HeaderField.cookie, generic)
    ∷ ("expect", HeaderField.expect, generic)
    ∷ ("from", HeaderField.from, generic)
    ∷ ("host", HeaderField.host, target)
    ∷ ("if_match", HeaderField.if_match, generic)
    ∷ ("if_modified_since", HeaderField.if_modified_since, since)
    ∷ ("if_none_match", HeaderField.if_none_match, generic)
    ∷ ("if_range", HeaderField.if_range, generic)
    ∷ ("if_unmodified_since", HeaderField.if_unmodified_since, generic)
    ∷ ("max_forwards", HeaderField.max_forwards, generic)
    ∷ ("proxy_authorization", HeaderField.proxy_authorization, generic)
    ∷ ("range", HeaderField.range, generic)
    ∷ ("referer", HeaderField.referer, generic)
    ∷ ("te", HeaderField.te, generic)
    ∷ ("user_agent", HeaderField.user_agent, generic)
    ∷ []

-- The rows of the table, with the names at the addresses that `literal` gives.
abbrev pub header_rows :
    (String → ℕ) → List (String × HeaderField × Processor) → List (Str × (HeaderField × Processor))
header_rows literal [] = []
header_rows literal ((name, field, processor) ∷ rows) =
    (string_init literal name, (field, processor)) ∷ header_rows literal rows

-- `unset` is the value of a slot that nothing has been put into.
unfoldable pub header_map_init :
    Memory → (String → ℕ) → HeaderField × Processor → Option (Map (HeaderField × Processor))
unfolding put_all
header_map_init m literal unset =
    put_all m (empty_map unset 131 (2 * 131)) (header_rows literal header_tb)

-- The place of a field in `sy_request_headers_t`.
abbrev pub offset : HeaderField → ℕ
offset HeaderField.cache_control = 0
offset HeaderField.c = 1
offset HeaderField.date = 2
offset HeaderField.pragma = 3
offset HeaderField.trailer = 4
offset HeaderField.transfer_encoding = 5
offset HeaderField.upgrade = 6
offset HeaderField.via = 7
offset HeaderField.warning = 8
offset HeaderField.allow = 9
offset HeaderField.content_encoding = 10
offset HeaderField.content_language = 11
offset HeaderField.content_length = 12
offset HeaderField.content_location = 13
offset HeaderField.content_md5 = 14
offset HeaderField.content_range = 15
offset HeaderField.content_type = 16
offset HeaderField.expires = 17
offset HeaderField.last_modified = 18
offset HeaderField.accept = 19
offset HeaderField.accept_charset = 20
offset HeaderField.accept_encoding = 21
offset HeaderField.authorization = 22
offset HeaderField.cookie = 23
offset HeaderField.expect = 24
offset HeaderField.from = 25
offset HeaderField.host = 26
offset HeaderField.if_match = 27
offset HeaderField.if_modified_since = 28
offset HeaderField.if_none_match = 29
offset HeaderField.if_range = 30
offset HeaderField.if_unmodified_since = 31
offset HeaderField.max_forwards = 32
offset HeaderField.proxy_authorization = 33
offset HeaderField.range = 34
offset HeaderField.referer = 35
offset HeaderField.te = 36
offset HeaderField.user_agent = 37
