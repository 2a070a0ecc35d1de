-- ===== src/Ssdp/Connection/Client/Scope.antt =====
-- When a search runs into the thread that is not there.
use upnp.Prelude.{
  String, ◌≡◌, ◌↔◌, ◌⊎◌, ◌&&◌, arith, refl, inl, inr, Bool-cases, true, false, List, ap, ok, err,
  null_pointer,
}
use upnp.Prelude.Number.{ℤ, stoi}
use upnp.Config.{Config}
use upnp.Ssdp.Headers.{Host, ssdp_header_search_request_line, create_header, search_headers}
use upnp.Ssdp.Server.{Datagram, multicast, Network}
use upnp.Ssdp.Connection.Client.{
  client_send, new_client, destroy_client, leave_scope, search_task, search,
}

module _ (net : Network) (h : Host) (config : Config) where
  search-address :
      (port : ℤ) (service : String) (sent : List Datagram)
      → stoi config.multicast_port ≡ ok port
      → net.is_address config.multicast_address ≡ true
      → net.client_opens sent ≡ true
      → (search net h config service sent).0 ≡ ok tt
  unfolding search search_task client_send new_client leave_scope destroy_client
  search-address port service sent read there opens =
      let d =
        multicast
          (create_header ssdp_header_search_request_line (search_headers h config service)) in
      elim (Bool-cases (net.takes sent d)) [
        | inl taken ↦ rw (read, there, opens, taken) refl
        | inr lost ↦ rw (read, there, opens, lost) refl
      ]

  search-no_address :
      (port : ℤ) (service : String) (sent : List Datagram)
      → stoi config.multicast_port ≡ ok port
      → net.is_address config.multicast_address && net.client_opens sent ≡ false
      → search net h config service sent ≡ (err null_pointer, sent)
  unfolding search search_task client_send new_client leave_scope destroy_client
  search-no_address port service sent read not_there = rw (read, not_there) refl

  -- Where the multicast port is read as an int, a search joins a thread through a null pointer
  -- exactly if the text of the multicast address is no address or the socket of the client does
  -- not open and bind, and returns exactly if neither is so, whatever the network takes.
  pub search-null_iff :
      (port : ℤ) (service : String) (sent : List Datagram)
      → stoi config.multicast_port ≡ ok port
      → ((search net h config service sent).0 ≡ err null_pointer
          ↔ ((net.is_address config.multicast_address ≡ false) ⊎ (net.client_opens sent ≡ false)))
        × ((search net h config service sent).0 ≡ ok tt
            ↔ ((net.is_address config.multicast_address ≡ true) × (net.client_opens sent ≡ true)))
  search-null_iff port service sent read =
      elim (Bool-cases (net.is_address config.multicast_address && net.client_opens sent)) [
        | inl there ↦
            let both : (net.is_address config.multicast_address ≡ true)
                × (net.client_opens sent ≡ true) =
              (ground arith, ground arith) in
            let fine = search-address port service sent read both.0 both.1 in
            ((λ e. absurd cc, λ e. ground arith), (λ e. both, λ e. fine))
        | inr not_there ↦
            let null : (search net h config service sent).0 ≡ err null_pointer =
              ap (λ p. p.0) (search-no_address port service sent read not_there) in
            ((λ e. ground arith, λ e. null), (λ e. absurd cc, λ e. ground arith))
      ]
