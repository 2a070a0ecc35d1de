-- ===== src/Config.antt =====
-- src/config.h: the configuration, its defaults, and its JSON form.
pub mod Defaults
pub mod RoundTrip
use upnp.Prelude.{
  String, Bool, true, false, not, ◌&&◌, Option, none, some, List, [], ◌∷◌, ◌==◌, Result, ok, err,
  null_pointer, assertion, ◌>>=◌, if◌then◌else◌,
}
use upnp.Prelude.StdMap.{find}
use upnp.Prelude.Text.{is_empty, c_str}

pub record Config : Type 0 where
  pub listen_address : String
  pub http_port : String
  pub multicast_address : String
  pub multicast_port : String
  pub name : String
  pub cds_uri : String
  pub uuid : String

-- `std::make_shared< Config >()`
abbrev pub empty_config : Config
empty_config = record {
  listen_address = "";
  http_port = "";
  multicast_address = "";
  multicast_port = "";
  name = "";
  cds_uri = "";
  uuid = "";
}

-- What `getifaddrs` says of an interface: its name and, unless `ifa_addr` is null, whether the
-- family is AF_INET and what `inet_ntop` prints.
pub record Address : Type 0 where
  pub is_inet : Bool
  pub text : String

pub record Interface : Type 0 where
  pub name : String
  pub addr : Option Address

-- The loop of `_get_ip`.
unfoldable pub last_ip : String → List Interface → Result String
last_ip ip [] = ok ip
last_ip ip (ifa ∷ rest) = elim ifa.addr [
  | none ↦ err null_pointer
  | some a ↦ last_ip (if a.is_inet && not (ifa.name == "lo") then a.text else ip) rest
]

unfoldable pub get_ip : List Interface → Result String
unfolding last_ip
get_ip interfaces = last_ip "127.0.0.1" interfaces

-- One default of `validate`: `if( field.empty() ) { field = value; }`.
unfoldable pub or_default : String → String → String
unfolding is_empty
or_default field value = if is_empty field then value else field

listen_default : List Interface → String → Result String
listen_default interfaces listen = if is_empty listen then get_ip interfaces else ok listen

unfoldable pub validate : List Interface → Config → Result (Bool × Config)
unfolding or_default listen_default is_empty
validate interfaces config = listen_default interfaces config.listen_address >>= λ listen. ok (
  true,
  record {
    listen_address = listen;
    http_port = or_default config.http_port "9003";
    multicast_address = or_default config.multicast_address "239.255.255.250";
    multicast_port = or_default config.multicast_port "1900";
    name = or_default config.name "Squawk Media Server: 1.0";
    cds_uri = or_default config.cds_uri "";
    uuid = or_default config.uuid "7499a4b3-8c03-49a2-9bce-aebbf4512dc8";
  },
)

-- The pairs of `writer.String` calls of `json( config )`, in their order.
unfoldable pub members : Config → List (String × String)
unfolding c_str
members config =
    ("http_port", c_str config.http_port)
    ∷ ("multicast_address", c_str config.multicast_address)
    ∷ ("multicast_port", c_str config.multicast_port)
    ∷ ("listen_address", c_str config.listen_address)
    ∷ ("name", c_str config.name)
    ∷ ("cds_uri", c_str config.cds_uri)
    ∷ ("uuid", c_str config.uuid)
    ∷ []

-- rapidjson, from outside: the text that the pretty writer gives for an object of strings, and what
-- a parsed document holds: `none` if it is no object, else its members, with `some` text for those
-- that are strings.
pub record Json : Type 0 where
  pub write_object : List (String × String) → String
  pub parse : String → Option (List (String × Option String))

-- `json( config )`
unfoldable pub to_json : Json → Config → String
unfolding members
to_json j config = j.write_object (members config)

-- `if( HasMember( key ) && [key].IsString() ) field = [key].GetString()` on an empty field.
unfoldable pub string_member : String → List (String × Option String) → String
unfolding c_str find
string_member key doc = elim (find key doc) [
  | none ↦ ""
  | some none ↦ ""
  | some (some text) ↦ c_str text
]

unfoldable pub of_members : List (String × Option String) → Config
unfolding string_member
of_members doc = record {
  http_port = string_member "http_port" doc;
  multicast_address = string_member "multicast_address" doc;
  multicast_port = string_member "multicast_port" doc;
  listen_address = string_member "listen_address" doc;
  name = string_member "name" doc;
  cds_uri = string_member "cds_uri" doc;
  uuid = string_member "uuid" doc;
}

-- `json( text )`: `HasMember` asserts that the document is an object.
unfoldable pub of_json : Json → String → Result Config
unfolding of_members
of_json j text = elim (j.parse (c_str text)) [
  | none ↦ err assertion
  | some doc ↦ ok (of_members doc)
]
