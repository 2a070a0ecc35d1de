-- ===== src/Ssdp/Server/Lifetime/Session.antt =====
-- When the construction of a server returns, and what it makes.
use upnp.Prelude.{String, ◌≡◌, ◌↔◌, refl, Bool-cases, inl, inr, true, List, [], ok, >>=-eq-ok}
use upnp.Prelude.Number.{ℤ, stoi}
use upnp.Prelude.StdMap.{StdMap}
use upnp.Config.{Config}
use upnp.Ssdp.Server.{Datagram, Network, register_all}
use upnp.Ssdp.Connection.{Connection, open_connection}
use upnp.Ssdp.Server.Threads.{newly_made}
use upnp.Ssdp.Server.Lifetime.{Implementation, start}

module _ (net : Network) (config : Config) where
  opened :
      (sent : List Datagram) (connection : Connection (List Datagram))
      → open_connection net config sent ≡ ok connection
      → (net.is_address config.multicast_address ≡ true)
        × (net.is_address config.listen_address ≡ true)
        × (net.server_opens ≡ true)
        × (connection ≡ record { pending = true; state = sent })
  unfolding open_connection
  opened sent connection h = elim (Bool-cases (net.is_address config.multicast_address)) [
    | inl m ↦ elim (Bool-cases (net.is_address config.listen_address)) [
      | inl l ↦ elim (Bool-cases net.server_opens) [
        | inl o ↦ (m, l, o, cc (rw (m, l, o) at h))
        | inr o ↦ absurd (cc (rw (m, l, o) at h))
      ]
      | inr l ↦ absurd (cc (rw (m, l) at h))
    ]
    | inr m ↦ absurd (cc (rw m at h))
  ]

  abbrev pub made_of : StdMap String → List Datagram → Implementation
  made_of given sent = record { namespaces = register_all given []; system = newly_made sent }

  pub start-impl :
      (given : StdMap String) (sent : List Datagram) (impl : Implementation)
      → start net config given sent ≡ ok impl
      → (port : ℤ) × (stoi config.multicast_port ≡ ok port)
        × (net.is_address config.multicast_address ≡ true)
        × (net.is_address config.listen_address ≡ true)
        × (net.server_opens ≡ true)
        × (impl ≡ made_of given sent)
  unfolding start
  start-impl given sent impl h =
      let (port, p, h1) = >>=-eq-ok (stoi config.multicast_port) _ h in
      let (connection, c, h2) = >>=-eq-ok (open_connection net config sent) _ h1 in
      let (multicast_is, listen_is, opens, same) = opened sent connection c in
      (port, p, multicast_is, listen_is, opens, cc)

  -- The construction of the SSDP server returns exactly if the multicast port is read as an int,
  -- the texts of the multicast address and of the listen address are addresses, and the socket
  -- opens, binds and joins the group.
  pub start-ok_iff :
      (given : StdMap String) (sent : List Datagram)
      → ((impl : Implementation) × (start net config given sent ≡ ok impl)) ↔ (
          (port : ℤ) × (stoi config.multicast_port ≡ ok port)
          × (net.is_address config.multicast_address ≡ true)
          × (net.is_address config.listen_address ≡ true)
          × (net.server_opens ≡ true))
  unfolding start open_connection
  start-ok_iff given sent = (
    λ (impl, e). let (port, p, m, l, o, _) = start-impl given sent impl e in (port, p, m, l, o),
    λ (port, p, m, l, o). (made_of given sent, rw (p, open_connection, m, l, o) refl),
  )
