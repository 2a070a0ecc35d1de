-- ===== src/Didl.antt =====
-- `upnp::Didl` of src/didl.h and src/didl.cpp: the DIDL-Lite document of a browse response.
pub mod Write
pub mod Classes
use upnp.Prelude.{
  ℕ, zero, suc, ◌+◌, String, Bool, true, false, ◌||◌, Option, none, some, List, [], ◌∷◌, get_elem?,
  Result, ok, if◌then◌else◌,
}
use upnp.Prelude.Exec.{Exec, pure}
use upnp.Config.{Config}
use upnp.Datastore.NodeType.{
  NodeType, folder, audio, movie, serie, image, ebook, file, album, cover, episode, artist, index,
}
use upnp.Xml.{Doc, Op, empty_doc, element, attr, XmlLib}
use Prim.Native.String.{◌++◌}

pub record Didl : Type 0 where
  pub config : Config
  pub result : ℕ
  pub doc : Doc
  pub root_node : ℕ

-- The constructor.
unfoldable pub new_didl : Config → Didl
unfolding element attr
new_didl config =
    let (doc, root) = element empty_doc 0 "DIDL-Lite" "" in
    let doc1 = attr doc root "xmlns" "urn:schemas-upnp-org:metadata-1-0/DIDL-Lite/" in
    let doc2 = attr doc1 root "xmlns:dc" "http://purl.org/dc/elements/1.1/" in
    let doc3 = attr doc2 root "xmlns:dlna" "urn:schemas-dlna-org:metadata-1-0/" in
    let doc4 = attr doc3 root "xmlns:upnp" "urn:schemas-upnp-org:metadata-1-0/upnp/" in
    let doc5 = attr doc4 root "xmlns:pv" "http://www.pv.com/pvns/" in
    record { config = config; result = 0; doc = doc5; root_node = root }

-- `Didl::str`
unfoldable pub str : XmlLib → Didl → String
str xml d = "<?xml version=\"1.0\"?>\n" ++ xml.print d.doc

-- `Didl::count`
unfoldable pub count : Didl → ℕ
count d = d.result

-- `CLASS_NAMES`, at the numbers of the node types.
abbrev pub class_names : List String
class_names =
    "object.container.storageFolder" ∷ "object.item.audioItem.musicTrack" ∷ "object.item.movie"
    ∷ "object.container.series" ∷ "object.item.photo" ∷ "object.item" ∷ "object.item"
    ∷ "object.container.album.musicAlbum" ∷ "object.item.photo" ∷ "object.item.movie"
    ∷ "object.container" ∷ []

abbrev class_at : Option String → String
class_at none = ""
class_at (some s) = s

-- `CLASS_NAMES.at( type )`, whose list has a name for each type.
unfoldable pub class_name : NodeType → String
unfolding index
class_name type = class_at (get_elem? class_names (index type))

-- `std::find` in `CLASS_CONTAINER`
unfoldable pub is_container : NodeType → Bool
is_container album = true
is_container artist = true
is_container folder = true
is_container serie = true
is_container _ = false

-- `element( &doc_, … )` and `attr( &doc_, … )` on the document of the object.
unfoldable pub add_element : ℕ → String → String → Exec Didl ℕ
unfolding element
add_element parent name value d =
    let (doc, node) = element d.doc parent name value in (ok node, record d { doc = doc })

unfoldable pub add_attr : ℕ → String → String → Exec Didl Unit
unfolding attr
add_attr node name value d = (ok tt, record d { doc = attr d.doc node name value })
