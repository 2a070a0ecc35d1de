-- ===== src/Ssdp/Server/Announcements.antt =====
-- How many datagrams `announce` and `suppress` of `SSDPServerImpl` send.
use upnp.Prelude.{
  ℕ, zero, suc, ◌+◌, ◌*◌, String, ◌≡◌, refl, true, List, [], ◌∷◌, length, length-append, ok, arith,
}
use upnp.Prelude.Exec.{◌>>◌}
use upnp.Prelude.StdMap.{StdMap}
use upnp.Config.{Config}
use upnp.Ssdp.Headers.{Host}
use upnp.Ssdp.Server.{
  Datagram, Network, Sending, send, send_anounce, send_suppress, suppress_each, anounce_each, times,
  suppress, announce_all, announce,
}

-- A step that returns, and sends `n` datagrams.
abbrev pub Sends : ℕ → Sending → Type 0
Sends n m = (sent : List Datagram) → ((m sent).0 ≡ ok tt) × (length (m sent).1 ≡ n + length sent)

then-Sends : (n k : ℕ) (m m' : Sending) → Sends n m → Sends k m' → Sends (n + k) (m >> m')
then-Sends n k m m' h h' sent =
    let (first, count) = h sent in
    let (rest, more) = h' (m sent).1 in (rw first rest, rw first (omega (arith, count, more)))

times-Sends : (n k : ℕ) (m : Sending) → Sends k m → Sends (n * k) (times n m)
unfolding times
times-Sends zero k m h sent = (refl, omega arith)
times-Sends (suc n) k m h sent =
    let (done, count) = then-Sends k (n * k) m (times n m) h (times-Sends n k m h) sent in
    (done, omega (arith, count))

module _ (net : Network) (h : Host) (config : Config) where
  -- A network that takes every datagram, and the address of the group is one.
  pub record IsOpen : Type 0 where
    pub takes : (sent : List Datagram) (d : Datagram) → net.takes sent d ≡ true
    pub address : net.is_address config.multicast_address ≡ true

  module _ (net_open : IsOpen) where
    send-Sends :
        (line : String) (headers : StdMap String) → Sends 1 (send net h config line headers)
    unfolding send
    send-Sends line headers sent =
        let taken = net_open.takes sent in
        (
          rw (net_open.address, taken),
          rw (net_open.address, taken) (omega (arith, length-append sent)),
        )

    suppress_each-Sends :
        (asked : StdMap String) → Sends (length asked) (suppress_each net h config asked)
    unfolding suppress_each send_suppress
    suppress_each-Sends [] sent = (refl, omega arith)
    suppress_each-Sends ((nt, location) ∷ asked) sent =
        let rest = suppress_each-Sends asked in
        let (done, count) =
          then-Sends 1 (length asked) (send_suppress net h config nt)
            (suppress_each net h config asked) (send-Sends _ _) rest sent in
        (done, omega (arith, count))

    anounce_each-Sends :
        (asked : StdMap String) → Sends (length asked) (anounce_each net h config asked)
    unfolding anounce_each send_anounce
    anounce_each-Sends [] sent = (refl, omega arith)
    anounce_each-Sends ((nt, location) ∷ asked) sent =
        let rest = anounce_each-Sends asked in
        let (done, count) =
          then-Sends 1 (length asked) (send_anounce net h config nt location)
            (anounce_each net h config asked) (send-Sends _ _) rest sent in
        (done, omega (arith, count))

    pub announce_all-Sends :
        (namespaces : StdMap String)
        → Sends (3 * length namespaces) (announce_all net h config namespaces)
    unfolding announce_all
    announce_all-Sends namespaces =
        times-Sends 3 (length namespaces) (anounce_each net h config namespaces)
          (anounce_each-Sends namespaces)

    -- In a network that takes every datagram, and where the text of the multicast address is an
    -- address, announcing returns and sends six datagrams for each namespace: three suppressions
    -- and three announcements.
    announce-Sends :
        (namespaces : StdMap String) (sent : List Datagram)
        → ((announce net h config namespaces sent).0 ≡ ok tt)
          × (length (announce net h config namespaces sent).1 ≡ 6 * length namespaces + length sent)
    unfolding announce suppress
    announce-Sends namespaces sent =
        let n = length namespaces in
        let each =
          times-Sends 3 n (suppress_each net h config namespaces)
            (suppress_each-Sends namespaces) in
        let (done, count) =
          then-Sends (3 * n) (3 * n) _ _ each (announce_all-Sends namespaces) sent in
        (done, omega (arith, count))
