-- ===== src/Tests/Discovery.antt =====
-- Discovery at concrete inputs.
use upnp.Prelude.{
  inl, ℕ, ◌+◌, ◌*◌, ◌≤◌, String, ◌≡◌, ◌≢◌, ◌↔◌, inr, refl, false, ◌==◌, Option, none, some, List,
  [], ◌∷◌, length, Result, ok, err, assertion, eq_iff, arith,
}
use upnp.Prelude.StdMap.{StdMap, find}
use upnp.Prelude.Text.{contains}
use upnp.Server.Http.{Request}
use upnp.Ssdp.Headers.{anounce_headers}
use upnp.Ssdp.Headers.Usn.{IsDistinct}
use upnp.Ssdp.Server.{Datagram, handle_receive, announce_thread}
use upnp.Ssdp.Server.Replies.{announcement, own_message_ignored, handle_receive-err_iff}
use upnp.Ssdp.Server.Thread.{announce_thread-rate}
use upnp.Ssdp.Connection.{received, handle_receive_from}
use upnp.Ssdp.Server.Robust.{Hears, listening, known-listens}
use upnp.Ssdp.Connection.Client.Search.{handled}
use upnp.Ssdp.Connection.Receiving.{start, failure-deaf}
use upnp.Tests.Toy.{toy_config, toy_host, toy_network, toy_network-IsOpen, announced}

differ : (s t : String) → (s == t) ≡ false → s ≢ t
differ s t h e = ground (arith, eq_iff s t)

host-IsDistinct : IsDistinct toy_host
host-IsDistinct = record {
  content_length = differ "Content-Length" "Usn" refl;
  upper_length = differ "Content-Length" "Usn" refl;
  response_date = differ "Date" "Usn" refl;
  date = differ "Date" "Usn" refl;
  ext = differ "Ext" "Usn" refl;
  nts = differ "Nts" "Usn" refl;
  server = differ "Server" "Usn" refl;
}

-- A request whose parameters are these headers, with an empty text for one that is not there.
abbrev text_of : Option String → String
text_of none = ""
text_of (some text) = text

abbrev request : String → StdMap String → Request
request method headers = record {
  method = method;
  parameter = λ name. text_of (find name headers);
  str = "";
}

abbrev own_headers : StdMap String
own_headers = anounce_headers toy_host toy_config "upnp:rootdevice" "http://10.0.0.1:9003/root.xml"

own_message_ignored_example :
    handle_receive toy_network toy_host toy_config announced (request "NOTIFY" own_headers) []
    ≡ (ok tt, [])
unfolding anounce_headers find
own_message_ignored_example =
    own_message_ignored toy_network toy_host toy_config announced host-IsDistinct own_headers
      (request "NOTIFY" own_headers) []
      (announcement "upnp:rootdevice" "http://10.0.0.1:9003/root.xml") refl

handle_receive-err_iff_example :
    ((handle_receive toy_network toy_host toy_config announced (request "GET" []) []).0
      ≡ err assertion)
    ↔ ((contains "" "u1" ≡ false)
        × ◌≢◌ {A = String} "GET" "M-SEARCH"
        × ◌≢◌ {A = String} "GET" "NOTIFY")
unfolding find
handle_receive-err_iff_example =
    handle_receive-err_iff toy_network toy_host toy_config announced (request "GET" []) []

announce_thread-rate_example :
    (k : ℕ) × (0 + 60000000000 * k ≤ 70000000000)
    × (70000000000 ≤ 0 + 240000000000 * k + 60000000000 + 60000000000)
    × (length
          (announce_thread toy_network toy_host toy_config announced 0
            ((60000000000, 70000000000) ∷ [])
            []).1
        ≡ 6 * k + 0)
announce_thread-rate_example =
    announce_thread-rate toy_network toy_host toy_config announced toy_network-IsOpen 60000000000 0
      ((60000000000, 70000000000) ∷ []) [] (omega arith) (omega arith, omega arith, tt)
      (omega arith, omega arith, tt)

abbrev handler : Request → List Datagram → Result (Unit {0}) × List Datagram
handler = handle_receive toy_network toy_host toy_config announced

failure-deaf_example :
    (handle_receive_from handler (received (request "GET" [])) []).1
    ≡ (handle_receive_from handler (received (request "GET" [])) []).1
unfolding handle_receive find contains
failure-deaf_example =
    failure-deaf handler (received (request "GET" [])) [] _
      (inr (request "GET" [], assertion, refl, refl)) start

known-listens_example :
    Hears handler
      (listening toy_network toy_host toy_config announced [])
      (request "NOTIFY" [] ∷ request "M-SEARCH" [] ∷ [])
      (listening toy_network toy_host toy_config announced
        (handled handler (request "NOTIFY" [] ∷ request "M-SEARCH" [] ∷ []) []))
known-listens_example =
    known-listens toy_network toy_host toy_config announced
      (request "NOTIFY" [] ∷ request "M-SEARCH" [] ∷ []) [] (inr (inr refl), (inr (inl refl), tt))
