-- ===== src/Ssdp/Event/Asked.antt =====
-- A search of one server as another one gets it.
use mathlib.Core.List.Memᴰ.{head, tail}
use upnp.Prelude.{true, String, ◌≡◌, refl, ap, ◌∙◌, false, List, [], ◌∷◌, ◌++◌, map, ok}
use upnp.Prelude.Number.{ℤ, stoi}
use upnp.Prelude.StdMap.{StdMap, find}
use upnp.Prelude.StdMap.Assigned.{put_all, Unset, Distinct, find-put_all, find-put_all-Unset}
use upnp.Prelude.Text.{contains, is_empty}
use upnp.Config.{Config}
use upnp.Server.Http.{Request}
use upnp.Ssdp.Headers.{
  Host, ssdp_header_man, ssdp_header_mx, ssdp_header_st, ssdp_header_usn,
  ssdp_header_search_request_line, ssdp_ns_all, ssdp_msearch, ssdp_status_discover,
  multicast_endpoint, create_header, search_headers,
}
use upnp.Ssdp.Server.{Datagram, multicast, Network, handle_receive}
use upnp.Ssdp.Server.Announcements.{IsOpen}
use upnp.Ssdp.Server.Replies.{answer, search_all_answers}
use upnp.Ssdp.Connection.Client.{
  search, search_task, client_send, new_client, leave_scope, destroy_client,
}
use upnp.Ssdp.Event.Own.{text_of}

-- The headers of a search, the last one that is set first.
abbrev pub asked_headers : Host → Config → String → StdMap String
asked_headers h config service =
    (h.to_upper h.content_length, "0")
    ∷ (h.to_upper ssdp_header_man, ssdp_status_discover)
    ∷ (h.to_upper ssdp_header_mx, "2")
    ∷ (h.to_upper ssdp_header_st, service)
    ∷ (h.to_upper h.host, multicast_endpoint config)
    ∷ []

search_headers-put_all :
    (h : Host) (config : Config) (service : String)
    → search_headers h config service ≡ put_all (asked_headers h config service)
unfolding search_headers
search_headers-put_all h config service = refl

nowhere : (uuid : String) → is_empty uuid ≡ false → contains "" uuid ≡ false
unfolding contains is_empty
nowhere String.[] h = cc
nowhere (String.◌∷◌ c s) h = refl

module _ (net : Network) (h : Host) (asking config : Config) where
  -- A search for all services, in a network that takes every datagram, with a socket that opens
  -- and a multicast port that is read as an int, sends one datagram; a server with a UUID that
  -- gets it as an M-SEARCH request answers once for each of its namespaces, in their order. The
  -- names of the headers of the search differ, and are not that of the USN, and the HTTP library
  -- looks names up as they are upper-cased.
  pub search-answered :
      IsOpen net h asking
      → (port : ℤ) (namespaces : StdMap String) (request : Request) (sent heard : List Datagram)
      → stoi asking.multicast_port ≡ ok port
      → net.client_opens sent ≡ true
      → request.method ≡ ssdp_msearch
      → ((name : String)
          → request.parameter name
            ≡ text_of (find (h.to_upper name) (search_headers h asking ssdp_ns_all)))
      → Distinct (asked_headers h asking ssdp_ns_all)
      → Unset (h.to_upper ssdp_header_usn) (asked_headers h asking ssdp_ns_all)
      → is_empty config.uuid ≡ false
      → (search net h asking ssdp_ns_all sent ≡ (
        ok tt,
        sent
            ++ multicast (
                create_header ssdp_header_search_request_line (search_headers h asking ssdp_ns_all))
              ∷ [],
      ))
        × (handle_receive net h config namespaces request heard
            ≡ (ok tt, heard ++ map (answer net h config namespaces) namespaces))
  unfolding search search_task client_send new_client leave_scope destroy_client
  search-answered net_open port namespaces request sent heard is_port opens m reads distinct unset
        uuid =
      let set = asked_headers h asking ssdp_ns_all in
      let st : request.parameter ssdp_header_st ≡ ssdp_ns_all =
        reads ssdp_header_st
        ∙ ap (λ headers. text_of (find (h.to_upper ssdp_header_st) headers))
            (search_headers-put_all h asking ssdp_ns_all)
        ∙ ap text_of (
            find-put_all (h.to_upper ssdp_header_st) ssdp_ns_all set distinct
              (tail (tail (tail (head refl))))) in
      let usn : request.parameter ssdp_header_usn ≡ "" =
        reads ssdp_header_usn
        ∙ ap (λ headers. text_of (find (h.to_upper ssdp_header_usn) headers))
            (search_headers-put_all h asking ssdp_ns_all)
        ∙ ap text_of (find-put_all-Unset (h.to_upper ssdp_header_usn) set unset) in
      let other : contains (request.parameter ssdp_header_usn) config.uuid ≡ false =
        ap (λ text. contains text config.uuid) usn ∙ nowhere config.uuid uuid in
      (
        rw (is_port, net_open.address, opens, net_open.takes sent _) refl,
        search_all_answers net h config namespaces request heard net_open.takes other m st,
      )
