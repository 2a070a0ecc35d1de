-- ===== src/Ssdp/Server/Threads/Farewell.antt =====
-- The datagrams of the suppressions and of the announcements of a server.
use upnp.Prelude.{String, ◌≡◌, refl, List, [], ◌∷◌, ◌++◌, ok}
use upnp.Prelude.StdMap.{StdMap}
use upnp.Config.{Config}
use upnp.Ssdp.Headers.{
  Host, ssdp_header_request_line, create_header, anounce_headers, suppress_headers,
}
use upnp.Ssdp.Server.{Datagram, multicast, Network, Sending, send}
use upnp.Ssdp.Server.Announcements.{IsOpen}

-- A step that returns, and sends these datagrams.
abbrev pub Appends : List Datagram → Sending → Type 0
Appends ds m = (sent : List Datagram) → m sent ≡ (ok tt, sent ++ ds)

-- Three times, as the network count says.
abbrev pub thrice : List Datagram → List Datagram
thrice ds = ds ++ (ds ++ (ds ++ []))

module _ (net : Network) (h : Host) (config : Config) where
  abbrev pub farewell : String × String → Datagram
  farewell (nt, location) =
      multicast (create_header ssdp_header_request_line (suppress_headers h config nt))

  abbrev pub greeting : String × String → Datagram
  greeting (nt, location) =
      multicast (create_header ssdp_header_request_line (anounce_headers h config nt location))

  module _ (net_open : IsOpen net h config) where
    pub send-Appends :
        (line : String) (headers : StdMap String)
        → Appends (multicast (create_header line headers) ∷ []) (send net h config line headers)
    unfolding send
    send-Appends line headers sent =
        rw (net_open.address, net_open.takes sent (multicast (create_header line headers))) refl
