-- ===== src/Config/RoundTrip.antt =====
-- A configuration that is stored as JSON is read back.
use upnp.Prelude.{String, ◌≡◌, ap, some, Option, List, [], ◌∷◌, ok}
use upnp.Prelude.Text.{c_str, c_str_idem}
use upnp.Config.{Config, Json, members, to_json, of_members, of_json}

-- Each field as its `c_str` shows it.
abbrev pub c_strings : Config → Config
c_strings c = record {
  listen_address = c_str c.listen_address;
  http_port = c_str c.http_port;
  multicast_address = c_str c.multicast_address;
  multicast_port = c_str c.multicast_port;
  name = c_str c.name;
  cds_uri = c_str c.cds_uri;
  uuid = c_str c.uuid;
}

abbrev pub as_strings : List (String × String) → List (String × Option String)
as_strings [] = []
as_strings ((k, v) ∷ ms) = (k, some v) ∷ as_strings ms

of_members-members : (c : Config) → of_members (as_strings (members c)) ≡ c_strings c
unfolding of_members members
of_members-members c = simp c_str_idem

-- The JSON text of a configuration is read back as the configuration with each field cut at its
-- first NUL, where the JSON library parses what it has written and the text has no NUL.
pub of_json-to_json :
    (j : Json) (c : Config)
    → c_str (to_json j c) ≡ to_json j c
    → j.parse (to_json j c) ≡ some (as_strings (members c))
    → of_json j (to_json j c) ≡ ok (c_strings c)
unfolding of_json
of_json-to_json j c whole parsed = rw (whole, parsed, of_json) (ap ok (of_members-members c))
