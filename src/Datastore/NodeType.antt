-- ===== src/Datastore/NodeType.antt =====
-- `data::NodeType` of src/datastore.h: the enumeration, its names, and the reading of a name.
pub mod Laws
pub mod Named
use upnp.Prelude.{
  ℕ, String, Bool, false, ◌||◌, Option, none, some, List, [], ◌∷◌, ◌==◌, get_elem?, if◌then◌else◌,
}
use upnp.Datastore.Param

pub data NodeType : Type 0 where
  folder audio movie serie image ebook file album cover episode artist : NodeType

-- The numbers that the enumeration gives.
unfoldable pub index : NodeType → ℕ
index folder = 0
index audio = 1
index movie = 2
index serie = 3
index image = 4
index ebook = 5
index file = 6
index album = 7
index cover = 8
index episode = 9
index artist = 10

-- `_internal::__NAMES`
abbrev pub names : List String
names =
    Param.folder ∷ Param.audio ∷ Param.movie ∷ Param.serie ∷ Param.image ∷ Param.ebook ∷ Param.file
    ∷ Param.album ∷ Param.cover ∷ Param.episode ∷ Param.artist ∷ []

abbrev name_at : Option String → String
name_at none = ""
name_at (some s) = s

-- `__NAMES.at( type )`, whose list has a name for each type.
unfoldable pub str : NodeType → String
unfolding index
str type = name_at (get_elem? names (index type))

unfoldable pub parse : String → NodeType
parse type =
    if type == Param.folder
    then folder
    else if type == Param.audio
    then audio
    else if type == Param.movie
    then movie
    else if type == Param.serie
    then serie
    else if type == Param.image
    then image
    else if type == Param.ebook
    then ebook
    else if type == Param.album
    then album
    else if type == Param.cover
    then cover
    else if type == Param.artist
    then artist
    else if type == Param.episode
    then episode
    else file

-- std::find over a sequence of names
unfoldable pub is_in : String → List String → Bool
is_in s [] = false
is_in s (t ∷ ts) = t == s || is_in s ts

unfoldable pub valid : String → Bool
unfolding is_in
valid type = is_in type names
