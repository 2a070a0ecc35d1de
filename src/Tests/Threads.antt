-- ===== src/Tests/Threads.antt =====
-- The threads of a server, at concrete schedules.
use upnp.Prelude.{ℕ, ◌≤◌, ◌≡◌, refl, true, false, List, [], ◌∷◌, ◌++◌, map}
use upnp.Ssdp.Server.{Datagram}
use upnp.Ssdp.Server.Threads.Farewell.{thrice, farewell, greeting as announcement}
use upnp.Ssdp.Server.Threads.{
  finished, greeting, joining, closed, suppressing, System, announcer_step, Act, greets, runs, owns,
  owner_step, announcer_goes, owner_goes, destroys, joins, Run, done, then, newly_made,
}
use upnp.Ssdp.Server.Threads.Shutdown.{reset-bounds, joined-silent}
use upnp.Ssdp.Server.Threads.Bound.{shutdown-bound}
use upnp.Ssdp.Server.Threads.Ending.{destruction-ends}
use upnp.Tests.Toy.{toy_host, toy_config, toy_network, toy_network-IsOpen, announced}

-- The flag is reset as a pass has just begun to announce.
abbrev caught : System
caught = record {
  announce_thread_run = false;
  sent = [];
  receiving = true;
  announcer = greeting 0 2 announced;
  owner = joining;
}

caught_run :
    Run toy_network toy_host toy_config announced
      (newly_made [])
      (runs ∷ runs ∷ runs ∷ owns ∷ runs ∷ [])
      caught
unfolding announcer_step
caught_run = then (announcer_goes 0 refl refl) (
    then (announcer_goes 0 refl refl) (
      then (announcer_goes 60000000000 refl refl)
        (then (destroys refl) (then (announcer_goes 0 refl refl) done))))

abbrev went_on : System
went_on = record caught {
  announcer = greeting 0 2 (("uuid:u1", "http://10.0.0.1:9003/root.xml") ∷ []);
  sent =
      announcement toy_network toy_host toy_config
        ("upnp:rootdevice", "http://10.0.0.1:9003/root.xml")
      ∷ [];
}

caught_goes : Run toy_network toy_host toy_config announced caught (greets ∷ []) went_on
unfolding announcer_step
caught_goes = then (announcer_goes 0 refl refl) done

reset-bounds_example : (1 ≤ 6) × (1 ≤ 13)
reset-bounds_example =
    reset-bounds toy_network toy_host toy_config announced [] caught_run refl caught_goes

-- A server that is destroyed before its thread has begun.
abbrev joined : System
joined = record {
  announce_thread_run = false;
  sent = [];
  receiving = true;
  announcer = finished;
  owner = suppressing true 3 [];
}

joined_run :
    Run toy_network toy_host toy_config announced
      (newly_made [])
      (owns ∷ runs ∷ runs ∷ owns ∷ [])
      joined
unfolding announcer_step
joined_run = then (destroys refl) (
    then (announcer_goes 0 refl refl)
      (then (announcer_goes 0 refl refl) (then (joins refl refl) done)))

joined_goes :
    Run toy_network toy_host toy_config announced joined
      (owns ∷ [])
      (record joined { owner = suppressing true 2 announced })
unfolding owner_step
joined_goes = then (owner_goes refl refl) done

joined-silent_example : ◌≡◌ {A = ℕ} 0 0 × (joined.announcer ≡ finished)
joined-silent_example =
    joined-silent toy_network toy_host toy_config announced [] joined_run refl joined_goes

destruction-ends_example :
    (after : List Act) × (t : System) × (until : List Datagram) × Run toy_network toy_host
      toy_config announced caught after t
    × (t.owner ≡ closed)
    × (t.announcer ≡ finished)
    × (t.receiving ≡ false)
    × (t.sent ≡ until ++ thrice (map (farewell toy_network toy_host toy_config) announced))
destruction-ends_example =
    destruction-ends toy_network toy_host toy_config announced toy_network-IsOpen [] caught_run refl

shutdown-bound_example : 1 ≤ 25
shutdown-bound_example =
    shutdown-bound toy_network toy_host toy_config announced [] caught_run refl caught_goes
