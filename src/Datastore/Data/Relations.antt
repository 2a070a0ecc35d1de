-- ===== src/Datastore/Data/Relations.antt =====
-- Adding a node to a list and removing it again. Redis documents ZADD and ZREM: a member that was
-- added is in the set, a member that was removed is not, and the other members are what they were.
use upnp.Prelude.{ℕ, String, [], ◌∷◌, ◌≢◌, ◌≡◌, ◌⊎◌, sym}
use upnp.Datastore.Name
use upnp.Datastore.NodeType.{NodeType}
use upnp.Datastore.Redis.{Redis}
use upnp.Datastore.Keys.{hash, make_key_list, make_key_list_type, make_key_types}
use upnp.Datastore.Data.{add_types, rem_types, add_nodes, rem_nodes, add_nodes_of, rem_nodes_of}

pub record SortedSets (r : Redis) : Type 1 where
  pub In : r.Db → String → String → Type 0
  pub zadd_in :
      (db : r.Db) (key score member : String)
      → In (r.command db (Name.zadd ∷ key ∷ score ∷ member ∷ [])) key member
  pub zadd_keep :
      (db : r.Db) (key score member other : String)
      → In db key member
      → In (r.command db (Name.zadd ∷ key ∷ score ∷ other ∷ [])) key member
  pub zadd_only :
      (db : r.Db) (key score member other : String)
      → In (r.command db (Name.zadd ∷ key ∷ score ∷ other ∷ [])) key member
      → In db key member ⊎ (member ≡ other)
  pub zrem_out :
      (db : r.Db) (key member : String)
      → ¬ In (r.command db (Name.zrem ∷ key ∷ member ∷ [])) key member
  pub zrem_keep :
      (db : r.Db) (key member other : String)
      → member ≢ other
      → In db key member
      → In (r.command db (Name.zrem ∷ key ∷ other ∷ [])) key member

module _ (r : Redis) (sets : SortedSets r) (db : r.Db) where
  open sets use {In, zadd_in, zrem_out, zrem_keep}

  -- Where Redis adds and removes members as it documents, add_nodes puts a key into the global
  -- list of its type and rem_nodes takes it out again; so do the overloads with a parent.
  rem_nodes-add_nodes :
      (type : NodeType) (parent key : String) (score : ℕ)
      → In (add_nodes r db type key score) (make_key_list_type type) key
        × (¬ In
            (rem_nodes r (add_nodes r db type key score) type key)
            (make_key_list_type type)
            key)
        × In (add_nodes_of r db parent type key score) (make_key_types parent type) key
        × (¬ In
            (rem_nodes_of r (add_nodes_of r db parent type key score) parent type key)
            (make_key_types parent type)
            key)
  unfolding add_nodes rem_nodes add_nodes_of rem_nodes_of
  rem_nodes-add_nodes type parent key score =
      (zadd_in _ _ _ _, zrem_out _ _ _, zadd_in _ _ _ _, zrem_out _ _ _)

  -- Where Redis adds and removes members as it documents, rem_types removes the hash of the key
  -- that add_types added: where the hash differs from the key, the key stays in the parent's list.
  pub rem_types-add_types :
      (boost_hash : String → ℕ) (parent key : String) (score : ℕ)
      → hash boost_hash key ≢ key
      → In
          (rem_types r boost_hash (add_types r db parent key score) parent key)
          (make_key_list parent)
          key
  unfolding add_types rem_types
  rem_types-add_types boost_hash parent key score differ =
      zrem_keep _ _ _ _ (λ e. differ (sym e)) (zadd_in _ _ _ _)
