-- ===== src/Datastore/Keys.antt =====
-- The key utilities of `struct data` of src/datastore.h.
pub mod Laws
pub mod Types
use Prim.Native.String.{◌++◌}
use upnp.Prelude.{ℕ, String, Bool, true, false, ◌||◌, List, [], ◌∷◌, ◌==◌, if◌then◌else◌}
use upnp.Prelude.StdMap.{StdMap}
use upnp.Prelude.Number.{of_ℕ}
use upnp.Datastore.Param
use upnp.Datastore.Key
use upnp.Datastore.NodeType.{NodeType, str}

-- `_internal::menu`: the name and the type of each entry.
abbrev pub menu : List (String × String)
menu =
    ("Albums", Param.album)
    ∷ ("Artists", Param.artist)
    ∷ ("Photos", Param.image)
    ∷ ("Movies", Param.movie)
    ∷ ("Series", Param.serie)
    ∷ ("eBooks", Param.ebook)
    ∷ ("Storage", Param.file)
    ∷ []

mod_in : String → List (String × String) → Bool
mod_in path [] = false
mod_in path ((name, type) ∷ rest) = type == path || mod_in path rest

unfoldable pub is_mod : String → Bool
unfolding mod_in
is_mod path = mod_in path menu

-- `boost_hash` is `boost::hash< std::string >`.
unfoldable pub hash : (String → ℕ) → String → String
unfolding is_mod
hash boost_hash in_key =
    if in_key == "root" || is_mod in_key then in_key else of_ℕ (boost_hash in_key)

-- The two overloads of `__iterate_key`: each further value is appended behind a colon.
unfoldable pub iterate_key : String → List String → String
iterate_key key [] = key
iterate_key key (value ∷ args) = iterate_key (key ++ (":" ++ value)) args

unfoldable pub make_key : String → List String → String
unfolding iterate_key
make_key prefix values = iterate_key prefix values

unfoldable pub make_key_node : String → String
unfolding make_key
make_key_node key = make_key Key.fs (key ∷ "node" ∷ [])

unfoldable pub make_key_list : String → String
unfolding make_key
make_key_list key = make_key Key.fs (key ∷ Key.list ∷ [])

-- The overload of `make_key_list` for a node type.
unfoldable pub make_key_list_type : NodeType → String
unfolding make_key str
make_key_list_type type = make_key Key.fs (str type ∷ Key.list ∷ [])

-- The key of a node's files of one type.
unfoldable pub make_key_types : String → NodeType → String
unfolding make_key str
make_key_types key type = make_key Key.fs (key ∷ "types" ∷ str type ∷ [])
