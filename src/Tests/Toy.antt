-- ===== src/Tests/Toy.antt =====
-- A toy database, which holds sorted sets, the fields of the last node saved, and a list of three keys
-- that each range command reads.
use upnp.Prelude.{
  String, ◌≡◌, refl, ◌⊎◌, inl, inr, true, false, Bool, ◌||◌, ◌&&◌, not, ◌==◌, eq_iff, eq_refl,
  Option, none, some, List, [], ◌∷◌, Result, ok, arith, if◌then◌else◌,
}
use upnp.Prelude.Number.{ℤ, pos, read_integer}
use upnp.Prelude.Number.RoundTrip.{read_integer-to_string}
use upnp.Config.{Config, Json, members}
use upnp.Config.RoundTrip.{as_strings}
use upnp.Xml.{XmlLib, root}
use upnp.Command.Laws.{envelope}
use upnp.Server.Http.{Request, Names}
use upnp.Ssdp.Headers.{Host}
use upnp.Ssdp.Server.{Network}
use upnp.Ssdp.Server.Announcements.{IsOpen}
use upnp.Prelude.StdMap.{StdMap}
use upnp.Datastore.Name
use upnp.Datastore.Redis.{Redis}
use upnp.Datastore.Data.Window.{range, Answers}
use upnp.Datastore.Data.Relations.{SortedSets}

abbrev pub three_keys : List String
three_keys = "a" ∷ "b" ∷ "c" ∷ []

-- Which members are in which set, and the words of the last HMSET.
abbrev pub Store : Type 0
Store = (String → String → Bool) × List String

abbrev pub hit : String → String → String → String → Bool
hit key member k m = k == key && m == member

abbrev toy_command : Store → List String → Store
toy_command (sets, fields) (name ∷ key ∷ member ∷ []) =
    (λ k m. not (hit key member k m) && sets k m, fields)
toy_command (sets, fields) (name ∷ key ∷ score ∷ member ∷ []) =
    if name == Name.hmset
    then (sets, score ∷ member ∷ [])
    else (λ k m. hit key member k m || sets k m, fields)
toy_command store words = store

abbrev toy_range : Result ℤ → Result ℤ → Option (List String)
toy_range (ok a) (ok b) = some (range three_keys a b)
toy_range _ _ = none

abbrev toy_list : Store → List String → Option (List String)
toy_list (sets, fields) (name ∷ key ∷ []) = some fields
toy_list store (name ∷ key ∷ a ∷ b ∷ []) = toy_range (read_integer a) (read_integer b)
toy_list store words = none

abbrev pub toy : Redis
toy = record {
  Db = Store;
  command = toy_command;
  sync_string = λ db words. none;
  sync_list = toy_list;
  sync_int = λ db words. some (pos 3);
  get = λ db key. some "{}";
  set = λ db key value. db;
}

abbrev pub empty_store : toy.Db
empty_store = (λ k m. false, [])

pub toy-Answers : (name key : String) → Answers toy empty_store name key three_keys
toy-Answers name key a b = rw (read_integer-to_string a, read_integer-to_string b)

added_or_there :
    (key other k member : String) (before : Bool)
    → (hit key other k member || before) ≡ true
    → (before ≡ true) ⊎ (member ≡ other)
added_or_there key other k member true h = inl refl
added_or_there key other k member false h = inr (ground (arith, eq_iff member other, eq_iff k key))

pub toy_sets : SortedSets toy
toy_sets = record {
  In = λ db key member. db.0 key member ≡ true;
  zadd_in = λ db key score member. ground (arith, eq_refl key, eq_refl member);
  zadd_keep = λ db key score member other h. ground (arith, eq_refl key);
  zadd_only =
      λ db key score member other h. added_or_there key other key member (db.0 key member) h;
  zrem_out = λ db key member h. ground (arith, eq_refl key, eq_refl member);
  zrem_keep = λ db key member other ne h.
      ground (arith, eq_refl key, eq_iff member other, eq_iff other member);
}

abbrev pub toy_config : Config
toy_config = record {
  listen_address = "10.0.0.1";
  http_port = "9003";
  multicast_address = "239.255.255.250";
  multicast_port = "1900";
  name = "toy";
  cds_uri = "http://10.0.0.1:9003";
  uuid = "u1";
}

abbrev pub arguments : List (String × String)
arguments = ("ObjectID", "7") ∷ ("BrowseFlag", "BrowseMetadata") ∷ []

-- A library that reads every text as one browse request, and prints every document alike.
abbrev pub toy_xml : XmlLib
toy_xml = record { parse = λ text. root (envelope "Browse" arguments); print = λ doc. "<doc/>" }

abbrev pub toy_names : Names
toy_names = record {
  content_length = "Content-Length";
  content_type = "Content-Type";
  mime_xml = "text/xml";
  mime_json = "text/json";
  mime_png = "image/png";
}

abbrev pub toy_request : String → String → Request
toy_request method callback = record { method = method; parameter = λ name. callback; str = "" }

-- A library that writes every object alike, and reads it as the toy configuration.
abbrev pub toy_json : Json
toy_json = record {
  write_object = λ ms. "{}";
  parse = λ text. some (as_strings (members toy_config));
}

abbrev pub toy_host : Host
toy_host = record {
  to_upper = λ text. text;
  host = "Host";
  cache_control = "Cache-Control";
  date = "Date";
  content_length = "Content-Length";
  sysname = "Linux";
  version = "1";
  time_string = "Thu";
}

abbrev pub toy_network : Network
toy_network = record {
  is_address = λ text. true;
  server_opens = true;
  client_opens = λ sent. true;
  takes = λ sent d. true;
}

pub toy_network-IsOpen : IsOpen toy_network toy_host toy_config
toy_network-IsOpen = record { takes = λ sent d. refl; address = refl }

abbrev pub announced : StdMap String
announced =
    ("upnp:rootdevice", "http://10.0.0.1:9003/root.xml")
    ∷ ("uuid:u1", "http://10.0.0.1:9003/root.xml")
    ∷ []

-- A database that gives the text of its last `set`.
abbrev pub texts : Redis
texts = record {
  Db = String;
  command = λ db words. db;
  sync_string = λ db words. none;
  sync_list = λ db words. none;
  sync_int = λ db words. none;
  get = λ db key. some db;
  set = λ db key value. value;
}
