-- ===== src/Server/Browse/Objects.antt =====
-- The number returned is the number of objects in the document.
use upnp.Prelude.{String, ◌≡◌, subst, List, [], ◌∷◌, Result, ok, err, >>=-eq-ok}
use upnp.Prelude.Exec
use upnp.Prelude.Number.{ℤ}
use upnp.Prelude.StdMap.{StdMap}
use upnp.Config.{Config}
use upnp.Datastore.Redis.{Redis}
use upnp.Datastore.Data
use upnp.Didl
use upnp.Didl.{Didl, new_didl}
use upnp.Didl.Write.{write}
use upnp.Didl.Write.Inside.{children_of}
use upnp.Didl.Write.Count.{IsCounted, Ends, IsCounted-new_didl, write-Ends}
use upnp.Server.Browse.{write_each, browse_keys, browse_children, outcome}

-- A call that returns leaves a document whose objects are counted.
abbrev pub Counts : Result (Unit {0}) × Didl → Type 0
Counts (ok _, d) = IsCounted d
Counts (err e, d) = Unit

module _ (r : Redis) (db : r.Db) where
  Counts-continue :
      (keys : List String) (result : Result (Unit {0})) (d : Didl)
      → Ends result d
      → ((d : Didl) → IsCounted d → Counts (write_each r db keys d))
      → Counts (Exec.continue result d (λ _. write_each r db keys))
  Counts-continue keys (ok _) d h rest = rest d h
  Counts-continue keys (err e) d h rest = tt

  Counts-node :
      (key : String) (keys : List String) (values : Result (StdMap String)) (d : Didl)
      → IsCounted d
      → ((d : Didl) → IsCounted d → Counts (write_each r db keys d))
      → Counts (
          Exec.continue values d (λ vs. Exec.◌>>=◌ (write r db key vs) (λ _. write_each r db keys)))
  Counts-node key keys (ok vs) d h rest =
      Counts-continue keys (write r db key vs d).0 (write r db key vs d).1
        (write-Ends r db key vs d h) rest
  Counts-node key keys (err e) d h rest = tt

  write_each-Counts :
      (keys : List String) (d : Didl) → IsCounted d → Counts (write_each r db keys d)
  unfolding write_each
  write_each-Counts [] d h = h
  write_each-Counts (key ∷ keys) d h =
      Counts-node key keys (Data.node r db key) d h (write_each-Counts keys)

  outcome-Counts :
      (o : Result (Unit {0}) × Didl) (d : Didl) → Counts o → outcome r db o ≡ ok d → IsCounted d
  outcome-Counts (ok _, d') d h e = let same : d' ≡ d = cc in subst IsCounted same h
  outcome-Counts (err f, d') d h e = cc

  -- Where the children of a node are browsed and no call throws, the number returned (Didl::count)
  -- is the number of objects that stand below the root of the DIDL-Lite document.
  pub browse_children-count :
      (config : Config) (key : String) (index count : ℤ) (d : Didl)
      → browse_children r db config key index count ≡ ok d
      → children_of d.root_node d.doc.ops ≡ Didl.count d
  unfolding browse_children Didl.count
  browse_children-count config key index count d h =
      let (keys, _, e) = >>=-eq-ok (browse_keys r db key index count) _ h in
      let counts = write_each-Counts keys (new_didl config) (IsCounted-new_didl config) in
      (outcome-Counts (write_each r db keys (new_didl config)) d counts e).counted
