-- ===== src/Server/Events/Subscribers.antt =====
-- A subscriber of the content directory among the requests that the server gets.
use Prim.Native.String.{◌++◌}
use mathlib.Core.List.Memᴰ
use mathlib.Core.List.{Memᴰ}
use upnp.Prelude.{String, List, ◌++◌ as ◌+++◌}
use upnp.Datastore.Redis.{Redis}
use upnp.Config.{Config}
use upnp.Server.Events.{Events}
use upnp.Server.Events.Serving
