-- ===== src/Didl/Write/Faults.antt =====
-- What a node's values must hold for `Didl::write` to return.
use upnp.Prelude.{String, ◌≡◌, none, some, err, out_of_range}
use upnp.Prelude.StdMap.{StdMap, find}
use upnp.Datastore.Param
use upnp.Datastore.Redis.{Redis}
use upnp.Didl.{Didl, add_element, add_attr}
use upnp.Didl.Write.{at, root_of, write_body, write_item, write}

-- Values with a class and without a parent make Didl::write throw std::out_of_range.
write_no_parent :
    (r : Redis) (db : r.Db) (key cls : String) (values : StdMap String) (d : Didl)
    → find Param.cls values ≡ some cls
    → find Param.parent values ≡ none
    → (write r db key values d).0 ≡ err out_of_range
unfolding write write_item write_body root_of add_element add_attr at
write_no_parent r db key cls values d e p = rw (e, write) (rw (p, at))
