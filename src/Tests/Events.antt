-- ===== src/Tests/Events.antt =====
-- Subscriptions, the headers of a response and the construction of the server at concrete inputs.
use upnp.Prelude.{
  ℕ, ◌≤◌, ◌≢◌, leb, ◌&&◌, Option, none, inl, inr, Bool-cases, ap, err, system_error, if◌then◌else◌,
  ◌≡◌, ◌↔◌, refl, Bool, true, Fault, some, List, [], ◌∷◌, Result, ok, arith,
}
use upnp.Prelude.Number.{ℤ, pos, negsuc, to_string}
use upnp.Server.Http.{parameter}
use upnp.Server.Control.{cds}
use upnp.Server.Start.{make_server, make_server-refused_iff}
use upnp.Server.Headers.{StatusLine, Response, Clock, HeaderNames, execute, ctl_cds}
use upnp.Server.Headers.Calls.{header, written, is_some}
use upnp.Server.Headers.Length.{OtherNames, IsResponse, execute-content_length, ctl_cds_post}
use upnp.Server.Events.{Urls, EventNames, EventRequest, Events, Incoming, to_cds, to_cms, serve}
use upnp.Xml.{XmlLib, no_root}
use upnp.Tests.Toy.{
  toy, empty_store, toy_config, toy_xml, toy_names, toy_request, toy_json, toy_host,
}

abbrev urls : Urls
urls = record { host = λ url. "10.0.0.7"; proto = λ url. "http"; path = λ url. "/event" }

abbrev event_names : EventNames
event_names = record {
  host = "Host";
  content_type = "Content-Type";
  connection = "Connection";
  connection_close = "close";
  cache_control = "Cache-Control";
  mime_xml = "text/xml";
}

abbrev client_get : EventRequest → Result (Unit {0})
client_get q = ok tt

abbrev no_events : Events toy.Db
no_events = record { db = empty_store; sent = [] }

-- A subscription, its end, and a subscription to the connection manager.
abbrev requests : List Incoming
requests =
    to_cds (toy_request "SUBSCRIBE" "<http://10.0.0.7/event>")
    ∷ to_cds (toy_request "UNSUBSCRIBE" "<http://10.0.0.7/event>")
    ∷ to_cms (toy_request "SUBSCRIBE" "<http://10.0.0.7/event>")
    ∷ []

abbrev survives : Fault → Bool
survives fault = true

abbrev after : Result (Unit {0}) × Events toy.Db
after =
    serve toy urls event_names client_get toy_xml toy_names survives true toy_config requests
      no_events

-- A library that finds no element in any text: a POST ends the process, and the last request is not
-- served.
abbrev blank_xml : XmlLib
blank_xml = record { parse = λ text. no_root; print = λ doc. "" }

abbrev crashing : List Incoming
crashing =
    to_cds (toy_request "SUBSCRIBE" "<http://10.0.0.7/event>")
    ∷ to_cds (toy_request "POST" "")
    ∷ to_cms (toy_request "SUBSCRIBE" "<http://10.0.0.7/event>")
    ∷ []

abbrev crashed : Result (Unit {0}) × Events toy.Db
crashed =
    serve toy urls event_names client_get blank_xml toy_names survives true toy_config crashing
      no_events

abbrev at_port : ℤ → Option toy.Db
at_port (pos n) = if leb n 40000 && leb 40000 n then some empty_store else none
at_port (negsuc n) = none

elsewhere : (other : ℤ) → other ≢ pos 40000 → at_port other ≡ none
elsewhere (pos n) ne = elim (Bool-cases (leb n 40000 && leb 40000 n)) [
  | inl e ↦ let same : n ≡ 40000 = ground arith in absurd (ne (ap pos same))
  | inr e ↦ rw e refl
]
elsewhere (negsuc n) ne = refl

make_server-refused_iff_example :
    (make_server toy toy_json (λ host. at_port) (λ host port. true) "localhost" (pos 40000)
      ≡ err system_error)
    ↔ (32768 ≤ 40000)
make_server-refused_iff_example =
    make_server-refused_iff toy toy_json (λ host. at_port) (λ host port. true) "localhost" 40000
      empty_store (omega arith) refl elsewhere

abbrev response : Response
response = record {
  contains_parameter = λ calls name. is_some (header name calls);
  tellp = λ calls. pos (written (λ text. 7) calls);
  expires = λ calls. pos 0;
}

response-IsResponse : IsResponse response (λ text. 7)
response-IsResponse = record { contains = λ calls name. refl; position = λ calls. refl }

abbrev clock : Clock
clock = record {
  Tm = ℕ;
  tm_sec = λ tm. pos tm;
  set_tm_sec = λ tm sec. tm;
  mktime = λ tm. tm;
  time_to_string = λ tm. "Thu";
}

abbrev header_names : HeaderNames
header_names = record {
  content_length = "Content-Length";
  expires = "Expires";
  date = "Date";
  server = "Server";
}

header_names-OtherNames : OtherNames header_names
header_names-OtherNames = record {
  expires = refl;
  date = refl;
  server = refl;
  sid = refl;
  ext = refl;
}

abbrev line : StatusLine
line = record { version_major = 1; version_minor = 1; protocol = "HTTP" }

execute-content_length_example :
    header "Content-Length"
      (execute response clock header_names toy_host toy_config line 0 0
        (parameter "Content-Length" "0" ∷ [])).1
    ≡ some "0"
execute-content_length_example =
    execute-content_length response clock header_names header_names-OtherNames (λ text. 7)
      response-IsResponse toy_host toy_config 0 0 line (parameter "Content-Length" "0" ∷ [])

ctl_cds_post_example :
    header "Content-Length"
      (ctl_cds response clock header_names toy empty_store toy_xml toy_names toy_host toy_config
        (toy_request "POST" "")
        line
        0
        0
        []).1
    ≡ some (
        to_string (
          pos (
            written
              (λ text. 7)
              (cds toy empty_store toy_xml toy_names toy_config (toy_request "POST" "") []).1)))
unfolding cds
ctl_cds_post_example =
    ctl_cds_post response clock header_names header_names-OtherNames (λ text. 7) response-IsResponse
      toy_host toy_config 0 0 toy empty_store toy_xml toy_names (toy_request "POST" "") line refl
      refl refl
