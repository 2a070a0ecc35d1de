-- ===== src/Ssdp/Server/Thread.antt =====
-- The thread that announces the server again and again.
use upnp.Prelude.{
  ℕ, suc, ◌+◌, ◌*◌, ◌≤◌, ◌<◌, String, ◌≡◌, inl, inr, Bool-cases, true, false, leb, List, [], ◌∷◌,
  length, arith, if◌then◌else◌,
}
use upnp.Prelude.StdMap.{StdMap}
use upnp.Config.{Config}
use upnp.Ssdp.Headers.{Host}
use upnp.Ssdp.Server.{Datagram, Network, seconds, announce_all, reannounce, announce_thread}
use upnp.Ssdp.Server.Announcements.{IsOpen, announce_all-Sends}

-- Readings that follow each other within a time `gap`.
abbrev pub Within : ℕ → ℕ → List (ℕ × ℕ) → Type 0
Within gap p [] = Unit
Within gap p ((end_time, now) ∷ rest) =
    (end_time ≤ p + gap) × (now ≤ end_time + gap) × Within gap now rest

-- Readings of a clock that does not go back, from a time on.
abbrev pub Ascending : ℕ → List (ℕ × ℕ) → Type 0
Ascending t [] = Unit
Ascending t ((end_time, now) ∷ rest) = (t ≤ end_time) × (end_time ≤ now) × Ascending now rest

-- The last reading.
abbrev pub finish : ℕ → List (ℕ × ℕ) → ℕ
finish t [] = t
finish t ((end_time, now) ∷ rest) = finish now rest

-- How many of the passes that begin at these readings announce: those where 60 seconds have passed.
unfoldable pub due : ℕ → List (ℕ × ℕ) → ℕ
unfolding seconds
due announce_time [] = 0
due announce_time ((end_time, now) ∷ rest) =
    let late = suc (due now rest) in
    let early = due announce_time rest in
    if leb 60 (seconds announce_time end_time) then late else early

Ascending-weaken :
    (s t : ℕ) (readings : List (ℕ × ℕ)) → s ≤ t → Ascending t readings → Ascending s readings
Ascending-weaken s t [] h a = tt
Ascending-weaken s t ((end_time, now) ∷ rest) h (first, next, a) =
    (omega (arith, first, h), next, a)

finish_mono : (s t : ℕ) (readings : List (ℕ × ℕ)) → s ≤ t → finish s readings ≤ finish t readings
finish_mono s t [] h = h
finish_mono s t ((end_time, now) ∷ rest) h = omega arith

late :
    (t end_time : ℕ)
    → t ≤ end_time
    → leb 60 (seconds t end_time) ≡ true
    → t + 60000000000 ≤ end_time
unfolding seconds
late t end_time h e = ground arith

due-bound :
    (t : ℕ) (readings : List (ℕ × ℕ))
    → Ascending t readings
    → t + 60000000000 * due t readings ≤ finish t readings
unfolding due
due-bound t [] a = omega arith
due-bound t ((end_time, now) ∷ rest) (h, h', a) = elim (Bool-cases (leb 60 (seconds t end_time))) [
  | inl e ↦ rw e (omega (arith, due-bound now rest a, late t end_time h e, h'))
  | inr e ↦
      let first : t ≤ now = omega (arith, h, h') in
      rw e (
        omega (
          arith,
          due-bound t rest (Ascending-weaken t now rest first a),
          finish_mono t now rest first,
        ))
]

early :
    (t end_time : ℕ)
    → t ≤ end_time
    → end_time < t + 4000000000000000000
    → leb 60 (seconds t end_time) ≡ false
    → end_time < t + 60000000000
unfolding seconds
early t end_time h small e = ground arith

-- `p` is the last reading.
finish-le :
    (gap t p : ℕ) (readings : List (ℕ × ℕ))
    → gap ≤ 1000000000000000000
    → t ≤ p
    → p ≤ t + 60000000000 + gap
    → Ascending p readings
    → Within gap p readings
    → finish p readings ≤ t + (60000000000 + 3 * gap) * due t readings + 60000000000 + gap
unfolding due
finish-le gap t p [] g first last a w = omega arith
finish-le gap t p ((end_time, now) ∷ rest) g first last (h, h', a) (w, w', ws) =
    elim (Bool-cases (leb 60 (seconds t end_time))) [
      | inl e ↦
          let rest_le = finish-le gap now now rest g (omega arith) (omega arith) a ws in
          rw e (omega (arith, rest_le, last, w, w'))
      | inr e ↦
          let small : t ≤ end_time = omega (arith, first, h) in
          let soon = early t end_time small (omega (arith, last, w, g)) e in
          rw e
            (finish-le gap t now rest g (omega (arith, small, h')) (omega (arith, soon, w')) a ws)
    ]

module _ (net : Network) (h : Host) (config : Config) (namespaces : StdMap String)
    (net_open : IsOpen net h config) where
  thread-counts :
      (announce_time : ℕ) (readings : List (ℕ × ℕ)) (sent : List Datagram)
      → length (announce_thread net h config namespaces announce_time readings sent).1
        ≡ 3 * length namespaces * due announce_time readings + length sent
  unfolding announce_thread reannounce due
  thread-counts announce_time [] sent = omega arith
  thread-counts announce_time ((end_time, now) ∷ rest) sent =
      elim (Bool-cases (leb 60 (seconds announce_time end_time))) [
        | inl e ↦
            let (done, count) = announce_all-Sends net h config net_open namespaces sent in
            rw (e, done)
              (omega (
                arith,
                count,
                thread-counts now rest (announce_all net h config namespaces sent).1,
              ))
        | inr e ↦ rw e (thread-counts announce_time rest sent)
      ]

  -- Where the clock does not go back, its readings follow each other within a gap of at most
  -- 1000000000 seconds, the network takes every datagram and the text of the multicast address is
  -- an address, the thread makes some number of announcements of three datagrams per namespace,
  -- and the time from the start to the last reading is at least 60 seconds for each of them, and
  -- at most 60 seconds and three gaps for each, with 60 seconds and one gap more.
  pub announce_thread-rate :
      (gap start : ℕ) (readings : List (ℕ × ℕ)) (sent : List Datagram)
      → gap ≤ 1000000000000000000
      → Ascending start readings
      → Within gap start readings
      → (k : ℕ) × (start + 60000000000 * k ≤ finish start readings)
        × (finish start readings ≤ start + (60000000000 + 3 * gap) * k + 60000000000 + gap)
        × (length (announce_thread net h config namespaces start readings sent).1
            ≡ 3 * length namespaces * k + length sent)
  announce_thread-rate gap start readings sent g a w = (
    due start readings,
    due-bound start readings a,
    finish-le gap start start readings g (omega arith) (omega arith) a w,
    thread-counts start readings sent,
  )
