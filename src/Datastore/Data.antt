-- ===== src/Datastore/Data.antt =====
-- The functions of `struct data` of src/datastore.h that talk to Redis. The callback of `children`
-- and `files` is called once for each key of the list that they return here, in its order.
pub mod Node
pub mod Window
pub mod Relations
pub mod Tree
use upnp.Prelude.{
  ℕ, zero, suc, ◌+◌, ◌/◌, ◌%◌, String, Bool, true, false, not, ◌&&◌, Option, none, some, List, [],
  ◌∷◌, ◌++◌, ◌==◌, nat_eq, length, get_elem?, Result, ok, err, out_of_range, assertion,
  system_error, redis_error, ◌>>=◌, if◌then◌else◌,
}
use upnp.Prelude.StdMap
use upnp.Prelude.StdMap.{StdMap}
use upnp.Prelude.Text.{is_empty}
use upnp.Prelude.Number.{ℤ, pos, negsuc, of_ℕ, to_string, int_add}
use upnp.Datastore.Param
use upnp.Datastore.Name
use upnp.Datastore.Key
use upnp.Datastore.NodeType.{NodeType, str}
use upnp.Datastore.Redis.{Redis}
use upnp.Datastore.Keys.{
  hash, make_key, make_key_node, make_key_list, make_key_list_type, make_key_types,
}

-- `command_t::at`
unfoldable pub at : List String → ℕ → Result String
at xs i = elim (get_elem? xs i) [ none ↦ err out_of_range | some x ↦ ok x ]

-- The loop of `to_map`, with the rounds that are left: `++++i` goes on by two words.
unfoldable pub to_map_loop : ℕ → ℕ → StdMap String → List String → Result (StdMap String)
unfolding at StdMap.put
to_map_loop zero i m words = ok m
to_map_loop (suc rounds) i m words = at words i >>= λ k.
    at words (i + 1) >>= λ v. to_map_loop rounds (i + 2) (StdMap.put k v m) words

-- The loop ends at the size, which the assertion has found to be even: half of it are its rounds.
unfoldable pub to_map : List String → Result (StdMap String)
unfolding to_map_loop
to_map words =
    if nat_eq (length words % 2) 0 then to_map_loop (length words / 2) 0 [] words else err assertion

-- The words that `save` adds for the fields of a node.
unfoldable pub fields : StdMap String → List String
fields [] = []
fields ((k, v) ∷ node) = k ∷ v ∷ fields node

-- `std::to_string( index + count - 1 )`
unfoldable pub range_end : ℤ → ℤ → Result String
unfolding int_add to_string
range_end index count =
    int_add index count >>= λ n. int_add n (negsuc 0) >>= λ stop. ok (to_string stop)

-- The command that `children` chooses.
unfoldable pub children_command : String → ℤ → String → String → String → String → List String
unfolding is_empty to_string
children_command key index stop sort order filter =
    if not (is_empty filter) && not (filter == "*")
    then Name.ft_search ∷ Key.index ∷ filter ∷ "NOCONTENT" ∷ "LIMIT" ∷ to_string index ∷ stop ∷ []
    else if sort == "default"
    then (if order == "desc" then Name.zrevrange else Name.zrange)
      ∷ make_key_list key
      ∷ to_string index
      ∷ stop
      ∷ []
    else Name.lrange
      ∷ make_key (make_key_list key) ("sort" ∷ sort ∷ order ∷ [])
      ∷ to_string index
      ∷ stop
      ∷ []

-- The reply's keys, for a reply that is `ok()`.
abbrev pub keys_of : Option (List String) → List String
keys_of none = []
keys_of (some keys) = keys

abbrev count_of : Option ℤ → ℤ
count_of none = pos 0
count_of (some n) = n

module _ (r : Redis) where
  open r use {Db, command, sync_string, sync_list, sync_int}

  -- `db` is what `redox::Redox::connect` gives.
  unfoldable pub make_connection : (String → ℤ → Option Db) → String → ℤ → Result Db
  make_connection connect host port = elim (connect host port) [
    | none ↦ err system_error
    | some db ↦ ok db
  ]

  unfoldable pub get : Db → String → String → String
  get db key param = elim (sync_string db (Name.hget ∷ make_key_node key ∷ param ∷ [])) [
    | none ↦ ""
    | some value ↦ value
  ]

  unfoldable pub set : Db → String → String → String → Db
  set db key param value = command db (Name.hmset ∷ make_key_node key ∷ param ∷ value ∷ [])

  unfoldable pub save : Db → String → StdMap String → Db
  unfolding fields
  save db key node = command db (Name.hmset ∷ make_key_node key ∷ fields node)

  unfoldable pub node : Db → String → Result (StdMap String)
  unfolding to_map
  node db key = elim (sync_list db (Name.hgetall ∷ make_key_node key ∷ [])) [
    | none ↦ ok []
    | some words ↦ to_map words
  ]

  unfoldable pub children : Db → String → ℤ → ℤ → String → String → String → Result (List String)
  unfolding range_end children_command
  children db key index count sort order filter = range_end index count >>= λ stop.
      ok (keys_of (sync_list db (children_command key index stop sort order filter)))

  unfoldable pub files : Db → String → NodeType → ℤ → ℤ → Result (List String)
  unfolding range_end to_string
  files db key type index count = range_end index count >>= λ stop.
      ok (
        keys_of
          (sync_list db (Name.zrange ∷ make_key_types key type ∷ to_string index ∷ stop ∷ [])))

  unfoldable pub children_count : Db → String → ℤ
  children_count db key = count_of (sync_int db (Name.zcard ∷ make_key_list key ∷ []))

  unfoldable pub files_count : Db → String → NodeType → ℤ
  files_count db key type = count_of (sync_int db (Name.zcard ∷ make_key_types key type ∷ []))

  -- `score` is the printed `float`.
  unfoldable pub add_tag : Db → NodeType → String → String → String → String → Db
  add_tag db type tag value member score =
      let db1 =
        command db
          (Name.zadd ∷ make_key Key.fs (str type ∷ Key.tag ∷ Param.name ∷ []) ∷ score ∷ tag ∷ []) in
      let db2 =
        command db1
          (Name.zadd ∷ make_key Key.fs (str type ∷ Key.tag ∷ tag ∷ []) ∷ score ∷ value ∷ []) in
      command db2
        (Name.zadd ∷ make_key Key.fs (str type ∷ Key.tag ∷ value ∷ []) ∷ score ∷ member ∷ [])

  unfoldable pub eval : Db → String → ℤ → List String → Db
  unfolding to_string
  eval db script argc argv = command db ("EVAL" ∷ script ∷ to_string argc ∷ argv)

  unfoldable pub add_types : Db → String → String → ℕ → Db
  add_types db parent key score =
      command db (Name.zadd ∷ make_key_list parent ∷ of_ℕ score ∷ key ∷ [])

  unfoldable pub rem_types : (String → ℕ) → Db → String → String → Db
  rem_types boost_hash db parent key =
      command db (Name.zrem ∷ make_key_list parent ∷ hash boost_hash key ∷ [])

  unfoldable pub add_nodes : Db → NodeType → String → ℕ → Db
  add_nodes db type key score =
      command db (Name.zadd ∷ make_key_list_type type ∷ of_ℕ score ∷ key ∷ [])

  unfoldable pub rem_nodes : Db → NodeType → String → Db
  rem_nodes db type key = command db (Name.zrem ∷ make_key_list_type type ∷ key ∷ [])

  -- The overloads of `add_nodes` and `rem_nodes` with a parent.
  unfoldable pub add_nodes_of : Db → String → NodeType → String → ℕ → Db
  add_nodes_of db parent type key score =
      command db (Name.zadd ∷ make_key_types parent type ∷ of_ℕ score ∷ key ∷ [])

  unfoldable pub rem_nodes_of : Db → String → NodeType → String → Db
  rem_nodes_of db parent type key = command db (Name.zrem ∷ make_key_types parent type ∷ key ∷ [])

  unfoldable pub incr_mime : Db → String → Db
  incr_mime db mime_type =
      let db1 = command db (Name.sadd ∷ Key.mime ∷ mime_type ∷ []) in
      command db1 ("INCR" ∷ make_key Key.mime (mime_type ∷ []) ∷ [])

  -- The two overloads of `config`.
  unfoldable pub config : Db → Result String
  config db = elim (r.get db Key.config) [ none ↦ err redis_error | some text ↦ ok text ]

  unfoldable pub store_config : Db → String → Db
  store_config db json = r.set db Key.config json

  unfoldable pub config_exists : Db → Bool
  config_exists db = elim (sync_int db (Name.exists ∷ Key.config ∷ [])) [
    | some (pos zero) ↦ false
    | none ↦ false
    | _ ↦ true
  ]
