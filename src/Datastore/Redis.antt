-- ===== src/Datastore/Redis.antt =====
-- The redox client, which the repository takes from outside: a database and the calls that the
-- program makes of it. A command is its list of words. `sync_…` is `commandSync` at a reply type:
-- `none` is a reply that is not `ok()`. `get` gives `none` where it throws, as for a missing key.
use upnp.Prelude.{String, List, Option}
use upnp.Prelude.Number.{ℤ}

pub record Redis : Type 1 where
  pub Db : Type 0
  pub command : Db → List String → Db
  pub sync_string : Db → List String → Option String
  pub sync_list : Db → List String → Option (List String)
  pub sync_int : Db → List String → Option ℤ
  pub get : Db → String → Option String
  pub set : Db → String → String → Db
