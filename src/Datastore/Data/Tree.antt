-- ===== src/Datastore/Data/Tree.antt =====
-- The content relations of the data store as a tree: which keys are the children of a key, and which
-- are its files of a type. The order and the scores of the sorted sets are forgotten. Redis documents
-- ZADD and ZREM: one member comes into one set or goes out of it, and nothing else changes.
pub mod Refines
use upnp.Prelude.{ℕ, String, ◌≡◌, ◌↔◌, ◌⊎◌, inl, inr, refl, ap, List, [], ◌∷◌}
use upnp.Datastore.Name
use upnp.Datastore.NodeType.{NodeType, str}
use upnp.Datastore.Redis.{Redis}
use upnp.Datastore.Keys.{hash, make_key_list, make_key_list_type, make_key_types}
use upnp.Datastore.Keys.Laws.{make_key_list-injective}
use upnp.Datastore.Keys.Types.{make_key_types-ne-list, make_key_types-injective}
use upnp.Datastore.Data.{add_types, rem_types, add_nodes, rem_nodes, add_nodes_of, rem_nodes_of}

pub record Members (r : Redis) : Type 1 where
  pub In : r.Db → String → String → Type 0
  pub zadd :
      (db : r.Db) (key score member k m : String)
      → In (r.command db (Name.zadd ∷ key ∷ score ∷ member ∷ [])) k m
        ↔ (In db k m ⊎ ((k ≡ key) × (m ≡ member)))
  pub zrem :
      (db : r.Db) (key member k m : String)
      → In (r.command db (Name.zrem ∷ key ∷ member ∷ [])) k m
        ↔ (In db k m × (¬ ((k ≡ key) × (m ≡ member))))

pub record Tree : Type 1 where
  pub child : (parent key : String) → Type 0
  pub file : (parent : String) (type : NodeType) (key : String) → Type 0

-- The same children and the same files, in whatever order they are kept.
abbrev pub Same : Tree → Tree → Type 0
Same a b =
    ((parent key : String) → a.child parent key ↔ b.child parent key)
    × ((parent : String) (type : NodeType) (key : String)
        → a.file parent type key ↔ b.file parent type key)

pub data Change : Type 0 where
  adds_child : (parent key : String) (score : ℕ) → Change
  removes_child : (parent key : String) → Change
  adds_node : (type : NodeType) (key : String) (score : ℕ) → Change
  removes_node : (type : NodeType) (key : String) → Change
  adds_file : (parent : String) (type : NodeType) (key : String) (score : ℕ) → Change
  removes_file : (parent : String) (type : NodeType) (key : String) → Change

module _ (r : Redis) (boost_hash : String → ℕ) where
  -- The function of the data store that a change calls.
  unfoldable pub change : Change → r.Db → r.Db
  unfolding add_types rem_types add_nodes rem_nodes add_nodes_of rem_nodes_of
  change (adds_child parent key score) db = add_types r db parent key score
  change (removes_child parent key) db = rem_types r boost_hash db parent key
  change (adds_node type key score) db = add_nodes r db type key score
  change (removes_node type key) db = rem_nodes r db type key
  change (adds_file parent type key score) db = add_nodes_of r db parent type key score
  change (removes_file parent type key) db = rem_nodes_of r db parent type key

  unfoldable pub changes : List Change → r.Db → r.Db
  unfolding change
  changes [] db = db
  changes (c ∷ cs) db = changes cs (change c db)

-- What a change does to the tree. The nodes of a type are the children of the type's name.
abbrev pub with_child : String → String → Tree → Tree
with_child p k tree = record tree { child = λ a b. tree.child a b ⊎ ((a ≡ p) × (b ≡ k)) }

abbrev pub without_child : String → String → Tree → Tree
without_child p k tree = record tree { child = λ a b. tree.child a b × (¬ ((a ≡ p) × (b ≡ k))) }

abbrev pub with_file : String → NodeType → String → Tree → Tree
with_file p t k tree = record tree {
  file = λ a u b. tree.file a u b ⊎ (((a ≡ p) × (u ≡ t)) × (b ≡ k));
}

abbrev pub without_file : String → NodeType → String → Tree → Tree
without_file p t k tree = record tree {
  file = λ a u b. tree.file a u b × (¬ (((a ≡ p) × (u ≡ t)) × (b ≡ k)));
}

abbrev pub changed : (boost_hash : String → ℕ) → Change → Tree → Tree
changed boost_hash (adds_child parent key score) = with_child parent key
changed boost_hash (removes_child parent key) = without_child parent (hash boost_hash key)
changed boost_hash (adds_node type key score) = with_child (str type) key
changed boost_hash (removes_node type key) = without_child (str type) key
changed boost_hash (adds_file parent type key score) = with_file parent type key
changed boost_hash (removes_file parent type key) = without_file parent type key

abbrev pub all_changed : (boost_hash : String → ℕ) → List Change → Tree → Tree
all_changed boost_hash [] tree = tree
all_changed boost_hash (c ∷ cs) tree = all_changed boost_hash cs (changed boost_hash c tree)
