-- ===== src/Didl/Write.antt =====
-- `Didl::write` of src/didl.cpp, in the order of its statements.
pub mod Inside
pub mod Count
pub mod Faults
use Prim.Native.String.{◌++◌}
use upnp.Prelude.{
  ℕ, suc, ltb, overflow, String, Bool, true, false, ◌||◌, ◌==◌, Option, none, some, List, Result,
  ok, err, out_of_range, if◌then◌else◌,
}
use upnp.Prelude.StdMap.{StdMap, find}
use upnp.Prelude.Number.{int_limit, to_string}
use upnp.Prelude.Exec.{Exec, pure, lift, ◌>>=◌, ◌>>◌}
use upnp.Datastore.Param
use upnp.Datastore.NodeType
use upnp.Datastore.NodeType.{
  NodeType, folder, audio, movie, serie, image, ebook, file, album, cover, episode, artist,
}
use upnp.Datastore.Redis.{Redis}
use upnp.Datastore.Data
use upnp.Didl.{Didl, class_name, is_container, add_element, add_attr}

abbrev Values : Type 0
Values = StdMap String

-- `values.at( key )`
unfoldable pub at : String → Values → Exec Didl String
at key values d = elim (find key values) [ none ↦ (err out_of_range, d) | some v ↦ (ok v, d) ]

-- `if( values.find( key ) != values.end() ) element( …, name, values.at( key ) );`
unfoldable pub optional_element : Values → ℕ → String → String → Exec Didl Unit
optional_element values node key name = elim (find key values) [
  | none ↦ pure tt
  | some v ↦ do add_element node name v; pure tt
]

unfoldable pub optional_attr : Values → ℕ → String → String → Exec Didl Unit
optional_attr values node key name = elim (find key values) [
  | none ↦ pure tt
  | some v ↦ add_attr node name v
]

-- The parent id that a client sees.
unfoldable pub parent_id : String → String
parent_id parent = if parent == "root" then "0" else if parent == "" then "-1" else parent

unfoldable pub write_title : NodeType → ℕ → Values → Exec Didl ℕ
write_title episode node values = do
  season ← at Param.season values
  number ← at Param.episode values
  name ← at Param.name values
  add_element node "dc:title" ("S" ++ (season ++ (number ++ (" " ++ name))))
write_title _ node values = do name ← at Param.name values; add_element node "dc:title" name

unfoldable pub write_details : ℕ → Values → Exec Didl Unit
write_details node values = do
  optional_element values node Param.year "dc:data"
  optional_element values node Param.artist "upnp:artist"
  optional_element values node Param.track "upnp:originalTrackNumber"
  optional_element values node Param.album "upnp:album"
  optional_element values node Param.comment "upnp:description"
  optional_element values node Param.year "dc:date"
  optional_element values node Param.genre "upnp:genre"

unfoldable pub cds_uri : Exec Didl String
cds_uri d = (ok d.config.cds_uri, d)

unfoldable pub write_thumb : ℕ → Values → Exec Didl Unit
write_thumb node values = elim (find Param.thumb values) [
  | none ↦ pure tt
  | some thumb ↦ do
    uri ← cds_uri
    art ← add_element node "albumArtURI" (uri ++ thumb)
    add_attr art "dlna:profileID" "JPEG_TN"
]

unfoldable pub write_resolution : Values → ℕ → Exec Didl Unit
write_resolution values res = elim (find "width" values) [
  | none ↦ pure tt
  | some width ↦ elim (find "height" values) [
    | none ↦ pure tt
    | some height ↦ add_attr res "resolution" (width ++ ("x" ++ height))
  ]
]

-- The start that the four kinds of resource share: the node and its protocol.
unfoldable pub open_res : String → ℕ → Values → Exec Didl ℕ
open_res key node values = do
  uri ← cds_uri
  ext ← at "ext" values
  res ← add_element node "res" (uri ++ ("/res/" ++ (key ++ ext)))
  mime ← at "mimeType" values
  add_attr res "protocolInfo"
      ("http-get:*:" ++ (mime ++ ":DLNA.ORG_OP=11;DLNA.ORG_FLAGS=01700000000000000000000000000000"))
  optional_attr values res "size" "size"
  optional_attr values res "mimeType" "mime-type"
  pure res

-- The resource of each type. The second branch of the source for a movie is behind the first one and
-- is never taken.
unfoldable pub write_res : NodeType → String → ℕ → Values → Exec Didl Unit
write_res file key node values = do open_res key node values; pure tt
write_res audio key node values = do
  res ← open_res key node values
  optional_attr values res "playlength" "duration"
  optional_attr values res "bitrate" "bitrate"
  optional_attr values res "bps" "bitsPerSample"
  optional_attr values res "samplerate" "sampleFrequency"
  optional_attr values res "channels" "nrAudioChannels"
write_res image key node values = do
  res ← open_res key node values
  write_resolution values res
  optional_attr values res "BitsPerSample" "colorDepth"
write_res cover key node values = do
  res ← open_res key node values
  write_resolution values res
  optional_attr values res "BitsPerSample" "colorDepth"
write_res movie key node values = do
  res ← open_res key node values
  optional_attr values res "playlength" "duration"
  optional_attr values res "bitrate" "bitrate"
  write_resolution values res
  optional_attr values res "BitsPerSample" "colorDepth"
write_res _ key node values = pure tt

unfoldable pub done : Exec Didl Unit
done d =
    if ltb (suc d.result) int_limit
    then (ok tt, record d { result = suc d.result })
    else (err overflow, d)

module _ (r : Redis) (db : r.Db) where
  unfoldable pub write_art : NodeType → ℕ → Values → Exec Didl Unit
  unfolding Data.get
  write_art audio node values = do
    uri ← cds_uri
    parent ← at Param.parent values
    art ← add_element node "albumArtURI" (uri ++ Data.get r db parent Param.med)
    add_attr art "dlna:profileID" "JPEG_MED"
  write_art _ node values = write_thumb node values

  -- What is written below the container or item node.
  unfoldable pub write_body : NodeType → String → ℕ → Values → Exec Didl Unit
  unfolding Data.children_count to_string class_name parent_id
  write_body type key node values = do
    add_attr node "id" key
    parent ← at Param.parent values
    add_attr node "parentID" (parent_id parent)
    add_attr node "restricted" "1"
    add_attr node "childCount" (to_string (Data.children_count r db key))
    write_title type node values
    add_element node "upnp:class" (class_name type)
    write_details node values
    write_art type node values
    write_res type key node values

  unfoldable pub root_of : Exec Didl ℕ
  root_of d = (ok d.root_node, d)

  unfoldable pub write_item : NodeType → String → Values → Exec Didl Unit
  unfolding is_container
  write_item type key values = do
    root ← root_of
    node ← add_element root (if is_container type then "container" else "item") ""
    write_body type key node values
    done

  unfoldable pub write : String → Values → Exec Didl Unit
  write key values = elim (find Param.cls values) [
    | none ↦ pure tt
    | some cls ↦ write_item (NodeType.parse cls) key values
  ]
