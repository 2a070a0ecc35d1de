-- ===== src/Tests/Session.antt =====
-- An announcement, a search and an icon at concrete inputs.
use upnp.Prelude.{
  String, Bool, true, not, ◌&&◌, ◌==◌, ◌≡◌, ◌≢◌, ◌⊎◌, refl, Option, none, some, [], ◌∷◌, map, ok,
  arith, if◌then◌else◌,
}
use upnp.Prelude.Number.{ℤ, pos, stoi}
use upnp.Prelude.StdMap.{StdMap, find}
use upnp.Prelude.StdMap.Assigned.{Unset, Distinct}
use upnp.Ssdp.Headers.{
  ssdp_status_alive, announce_interval, usn, multicast_endpoint, server_text, anounce_headers,
  create_header, search_headers,
}
use upnp.Prelude.Text.{is_empty}
use upnp.Server.Http.{Request}
use upnp.Ssdp.Event.Asked.{asked_headers, search-answered}
use upnp.Ssdp.Server.Replies.{answer}
use upnp.Ssdp.Server.{multicast, handle_receive}
use upnp.Ssdp.Connection.Client.{search}
use upnp.Ssdp.Event.{Message, parse_request}
use upnp.Ssdp.Event.Own.{
  text_of, is_there, announced_headers, ReadsAge, parse_request-anounce_headers,
}
use upnp.Icons.{squawk16_png}
use upnp.Icons.Png.{IsPng}
use upnp.Main.{IconFile, squawk16, icon_file}
use upnp.Main.Routes.{respond, icon}
use upnp.Main.Routes.Icons.{size_of, icon-served}
use upnp.Server.Http.{write, parameter}
use upnp.Tests.Toy.{
  toy, empty_store, toy_xml, toy_names, toy_request, toy_host, toy_config, toy_network,
  toy_network-IsOpen, announced,
}

abbrev message : StdMap String → Message
message headers = record {
  contains_parameter = λ name. is_there (find name headers);
  parameter = λ name. text_of (find name headers);
}

abbrev lexical_cast : String → Option ℤ
lexical_cast text = if text == "1800" then some (pos 1800) else none

toy_age : ReadsAge (λ text blank. text) lexical_cast
toy_age = record { no_blank = refl; number = refl }

-- Whether the keys of the assignments differ from each other, and from another key.
abbrev is_unset : String → StdMap String → Bool
is_unset key [] = true
is_unset key ((k, v) ∷ set) = not (k == key) && is_unset key set

abbrev is_distinct : StdMap String → Bool
is_distinct [] = true
is_distinct ((k, v) ∷ set) = is_unset k set && is_distinct set

is_unset-Unset : (key : String) (set : StdMap String) → is_unset key set ≡ true → Unset key set
is_unset-Unset key [] h = tt
is_unset-Unset key ((k, v) ∷ set) h = (ground arith, is_unset-Unset key set (ground arith))

is_distinct-Distinct : (set : StdMap String) → is_distinct set ≡ true → Distinct set
is_distinct-Distinct [] h = tt
is_distinct-Distinct ((k, v) ∷ set) h =
    (is_unset-Unset k set (ground arith), is_distinct-Distinct set (ground arith))

abbrev own_announcement : Message
own_announcement =
    message (anounce_headers toy_host toy_config "upnp:rootdevice" "http://10.0.0.1:9003/root.xml")

parse_request-anounce_headers_example :
    parse_request (λ text blank. text) lexical_cast toy_host (pos 5) own_announcement
    ≡ ok (record {
      host = multicast_endpoint toy_config;
      location = "http://10.0.0.1:9003/root.xml";
      nt = "upnp:rootdevice";
      nts = ssdp_status_alive;
      server = server_text toy_host;
      usn = usn toy_config "upnp:rootdevice";
      last_seen = pos 5;
      cache_control = pos announce_interval;
    })
parse_request-anounce_headers_example =
    parse_request-anounce_headers (λ text blank. text) lexical_cast toy_age toy_host toy_config
      "upnp:rootdevice" "http://10.0.0.1:9003/root.xml" (pos 5) own_announcement
      (record { contains = λ name. refl; value = λ name. refl })
      (is_distinct-Distinct
        (announced_headers toy_host toy_config "upnp:rootdevice" "http://10.0.0.1:9003/root.xml")
        refl)

abbrev asking : Request
asking = record {
  method = "M-SEARCH";
  parameter = λ name. text_of (find name (search_headers toy_host toy_config "ssdp:all"));
  str = "";
}

search-answered_example :
    (search toy_network toy_host toy_config "ssdp:all" [] ≡ (
      ok tt,
      multicast
            (create_header "M-SEARCH * HTTP/1.1" (search_headers toy_host toy_config "ssdp:all"))
          ∷ [],
    ))
    × (handle_receive toy_network toy_host toy_config announced asking []
        ≡ (ok tt, map (answer toy_network toy_host toy_config announced) announced))
unfolding stoi is_empty
search-answered_example =
    search-answered toy_network toy_host toy_config toy_config toy_network-IsOpen (pos 1900)
      announced asking [] [] refl refl refl (λ name. refl)
      (is_distinct-Distinct (asked_headers toy_host toy_config "ssdp:all") refl)
      (is_unset-Unset "Usn" (asked_headers toy_host toy_config "ssdp:all") refl) refl

-- The description's largest icon is asked for by digits that no icon has.
icon-served_example :
    (respond toy empty_store toy_xml toy_names
        (λ bytes. "image")
        toy_config
        (toy_request "GET" "")
        "128"
        icon
        []
      ≡ (ok tt, write "image" ∷ parameter "Content-Type" "image/png" ∷ []))
    × IsPng 16 16 squawk16_png
    × (◌≡◌ {A = String} "16" "128"
        ⊎ ((icon_file "128" ≡ squawk16) × ((other : IconFile) → size_of other ≢ "128")))
unfolding icon_file
icon-served_example =
    icon-served toy empty_store toy_xml toy_names (λ bytes. "image") toy_config
      (toy_request "GET" "") "128" []
