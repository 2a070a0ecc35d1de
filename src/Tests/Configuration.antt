-- ===== src/Tests/Configuration.antt =====
-- The configuration and the set-up of the program at concrete inputs.
use upnp.Prelude.{
  String, arith, ◌≡◌, ◌↔◌, err, null_pointer, refl, sym, ap, All, Option, true, false, Bool, none,
  some, List, [], ◌∷◌,
}
use upnp.Prelude.Text.{c_str, is_empty}
use upnp.Config.{Config, empty_config, Interface, Address, get_ip, validate, members, Json, to_json}
use upnp.Config.Defaults.{
  IsPrinted, IsComplete, KeepsSet, validate-IsComplete, HasNull, get_ip-null_iff,
}
use upnp.Config.RoundTrip.{c_strings, as_strings}
use upnp.Main.{Options, Started, namespaces}
use upnp.Main.Launch.{Launched, launch}
use upnp.Main.Launch.Agreement.{launch-agrees}
use upnp.Main.Loaded.{Loaded}
use upnp.Ssdp.Server.Threads.{newly_made, suppressing}
use upnp.Tests.Toy.{texts, toy_network, toy, empty_store, toy_config}

abbrev interfaces : List Interface
interfaces =
    record { name = "eth0"; addr = some (record { is_inet = true; text = "10.0.0.1" }) } ∷ []

interfaces-IsPrinted : All IsPrinted interfaces
unfolding is_empty
interfaces-IsPrinted = (λ a e. sym (ap is_text e), tt)
  where
    is_text : Option Address → Bool
    is_text none = false
    is_text (some a) = is_empty a.text

abbrev filled_config : Config
filled_config = record {
  listen_address = "10.0.0.1";
  http_port = "9003";
  multicast_address = "239.255.255.250";
  multicast_port = "1900";
  name = "Squawk Media Server: 1.0";
  cds_uri = "";
  uuid = "7499a4b3-8c03-49a2-9bce-aebbf4512dc8";
}

validate-IsComplete_example :
    ◌≡◌ {A = Bool} true true × IsComplete filled_config × KeepsSet empty_config filled_config
unfolding validate get_ip
validate-IsComplete_example =
    validate-IsComplete interfaces empty_config filled_config true interfaces-IsPrinted refl

-- A tunnel without an address beside the first interface.
abbrev with_tunnel : List Interface
with_tunnel = record { name = "tun0"; addr = none } ∷ interfaces

get_ip-null_iff_example : (get_ip with_tunnel ≡ err null_pointer) ↔ HasNull with_tunnel
get_ip-null_iff_example = get_ip-null_iff with_tunnel

abbrev options : Options
options = record {
  http_port = none;
  multicast_address = none;
  multicast_port = none;
  listen = none;
  name = some "named";
  cds = none;
  redis = "localhost";
  redis_port = "6379";
}

abbrev servers : Started toy.Db
servers = record {
  config = record toy_config { name = "named" };
  announced = namespaces (record toy_config { name = "named" });
  db = empty_store;
}

-- A library that reads every text as the configuration of a first start.
abbrev first_json : Json
first_json = record {
  write_object = λ ms. "{}";
  parse = λ text. some (as_strings (members filled_config));
}

abbrev first_started : Started String
first_started = record { config = filled_config; announced = namespaces empty_config; db = "{}" }

abbrev launched : Launched String
launched = record {
  started = first_started;
  server = record { redis = "{}"; config = c_strings filled_config; subscribed = true };
  ssdp = record {
    namespaces = namespaces empty_config;
    system = record (newly_made []) { owner = suppressing false 3 [] };
  };
}

launch-agrees_example :
    IsComplete filled_config
    × (c_strings filled_config ≡ c_strings filled_config)
    × (launched.ssdp.namespaces ≡ namespaces empty_config)
unfolding launch c_str to_json get_ip
launch-agrees_example =
    launch-agrees texts first_json (λ host port. some "") (λ host port. true) interfaces
      (record options { name = none }) toy_network 6379 launched refl (omega arith)
      interfaces-IsPrinted (record { whole = refl; parsed = refl; got = λ db key value. refl }) refl
