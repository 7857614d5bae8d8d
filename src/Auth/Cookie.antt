-- ===== src/Auth/Cookie.antt =====
-- Reading a cookie (`extract_cookie` of backend/src/auth/session.rs).
use hzelmaim.Prelude.{Option, none, some, List, [], ◌∷◌, if◌then◌else◌}
use hzelmaim.Prelude.Bytes.{Bytes, bytes_eq, split, split_once}
use hzelmaim.Prelude.Text.{trim}
use hzelmaim.Api.Headers.{HeaderMap}

abbrev value_if_named : Bytes → Option (Bytes × Bytes) → Option Bytes
value_if_named cookie_name none = none
value_if_named cookie_name (some (name, value)) =
    if bytes_eq name cookie_name then some value else none

abbrev or_else : Option Bytes → Option Bytes → Option Bytes
or_else (some v) rest = some v
or_else none rest = rest

-- `find_map` over the trimmed entries.
unfoldable pub find_cookie : Bytes → List Bytes → Option Bytes
find_cookie cookie_name [] = none
find_cookie cookie_name (entry ∷ entries) =
    or_else (value_if_named cookie_name (split_once 61 (trim entry)))
      (find_cookie cookie_name entries)

abbrev in_header : Bytes → Option Bytes → Option Bytes
in_header cookie_name none = none
in_header cookie_name (some raw) = find_cookie cookie_name (split 59 raw)

unfoldable pub extract_cookie : HeaderMap → Bytes → Option Bytes
extract_cookie headers cookie_name = in_header cookie_name (headers "cookie")
