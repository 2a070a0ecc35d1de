-- ===== src/Ssdp/Server/Lifetime.antt =====
-- The constructor of `SSDPServerImpl`, in src/ssdpserver.cpp, and the start of its `announce`. The
-- destructor, the steps of `announce` and those of the threads are in Threads.antt.
pub mod Session
use upnp.Prelude.{String, true, false, List, [], Result, ok, ◌>>=◌}
use upnp.Prelude.Number.{stoi}
use upnp.Prelude.StdMap.{StdMap}
use upnp.Config.{Config}
use upnp.Ssdp.Headers.{Host, network_count}
use upnp.Ssdp.Server.{Datagram, Network, register_all}
use upnp.Ssdp.Server.Threads.{System, begin, using, suppressing}
use upnp.Ssdp.Connection.{open_connection}

-- A server: the namespaces, and where its threads stand. The names of the connection, of the flag and of
-- the threads are those of `System`.
pub record Implementation : Type 0 where
  pub namespaces : StdMap String
  pub system : System

-- `SSDPServerImpl::SSDPServerImpl`: the first receive operation is pending, and the announcing thread has
-- been made with the flag set.
unfoldable pub start : Network → Config → StdMap String → List Datagram → Result Implementation
unfolding register_all stoi open_connection
start net config given sent = stoi config.multicast_port >>= λ port.
    open_connection net config sent >>= λ connection. ok (record {
      namespaces = register_all given [];
      system = record {
        announce_thread_run = true;
        sent = connection.state;
        receiving = connection.pending;
        announcer = begin;
        owner = using;
      };
    })

-- `announce` has been called: its loops are the next steps of the owner.
unfoldable pub call_announce : Implementation → Implementation
call_announce impl = record impl {
  system = record impl.system { owner = suppressing false network_count [] };
}
