-- ===== src/Crypto/Headers.antt =====
-- `axum::http::HeaderMap` as the handlers read it: names, which are lower case, with the text of their
-- values, `none` where `to_str` refuses a value.
use aether_relay.Prelude.{◌=?◌, if◌then◌else◌, String, Option, none, some, List, [], ◌∷◌}

abbrev pub HeaderMap : Type 0
HeaderMap = List (String × Option String)

-- `headers.get(name)`: the first value of the name.
unfoldable pub get : String → HeaderMap → Option (Option String)
get name [] = none
get name ((n, value) ∷ headers) = if n =? name then some value else get name headers

-- `.and_then(|v| v.to_str().ok())`
abbrev pub to_str : Option (Option String) → Option String
to_str none = none
to_str (some value) = value

-- `.or_else(…)`
abbrev pub or_else : Option (Option String) → Option (Option String) → Option (Option String)
or_else none other = other
or_else (some value) other = some value
