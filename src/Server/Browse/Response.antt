-- ===== src/Server/Browse/Response.antt =====
-- The response to a browse request, from the body of the request to the calls of the response.
use upnp.Prelude.{String, ◌≡◌, refl, sym, ap, ◌∙◌, ◌==◌, Option, none, some, [], ◌∷◌, ok}
use upnp.Prelude.Number.{ℤ, pos, stoi}
use upnp.Prelude.StdMap.{StdMap, find}
use upnp.Prelude.Text.{c_str}
use upnp.Config.{Config}
use upnp.Datastore.Redis.{Redis}
use upnp.Datastore.Data
use upnp.Xml.{XmlLib, root}
use upnp.Command
use upnp.Command.{UpnpCommand, CommandType, browse, get, contains, parse_request}
use upnp.Command.Laws.{Arguments, envelope, last_value, parse_request-envelope}
use upnp.Didl
use upnp.Didl.{Didl, new_didl}
use upnp.Didl.Write.Inside.{children_of}
use upnp.Server.Browse.Objects.{browse_children-count}
use upnp.Server.Soap.{soap_envelope}
use upnp.Server.Http.{Request, Names, write, parameter, call}
use upnp.Server.Browse
use upnp.Didl.Write as DidlWrite
use upnp.Server.Browse.{
  int_argument, browse_count, object_key, has_flag, browse_object, browse_children, browse_metadata,
}
use upnp.Server.Control.{cds, cds_method, cds_command}

-- The arguments of a browse request, where the numbers are read.
pub record Asks (flag : String) (value : String → Option String) (object_id : String)
    (index requested : ℤ) : Type 0 where
  pub browse_flag : value "BrowseFlag" ≡ some flag
  pub object : value "ObjectID" ≡ some object_id
  pub index_text : String
  pub starts : value "StartingIndex" ≡ some index_text
  pub index_read : stoi index_text ≡ ok index
  pub count_text : String
  pub counts : value "RequestedCount" ≡ some count_text
  pub count_read : stoi count_text ≡ ok requested

asked :
    (flag : String) (args : Arguments) (c : UpnpCommand)
    → ((key : String) → find key c.values ≡ last_value key args none)
    → (object_id : String) (index requested : ℤ)
    → Asks flag (λ key. last_value key args none) object_id index requested
    → Asks flag (λ key. find key c.values) object_id index requested
asked flag args c values object_id index requested asks = record {
  browse_flag = values "BrowseFlag" ∙ asks.browse_flag;
  object = values "ObjectID" ∙ asks.object;
  index_text = asks.index_text;
  starts = values "StartingIndex" ∙ asks.starts;
  index_read = asks.index_read;
  count_text = asks.count_text;
  counts = values "RequestedCount" ∙ asks.counts;
  count_read = asks.count_read;
}

int_argument-found :
    (key text : String) (n : ℤ) (c : UpnpCommand)
    → find key c.values ≡ some text
    → stoi text ≡ ok n
    → int_argument key c ≡ ok n
unfolding int_argument contains get
int_argument-found key text n c e read = rw (contains, e) (rw (get, e) read)

get-found :
    (key value : String) (c : UpnpCommand) → find key c.values ≡ some value → get key c ≡ (value, c)
unfolding get
get-found key value c e = rw (get, e) refl

has_flag-found :
    (flag value : String) (c : UpnpCommand)
    → find "BrowseFlag" c.values ≡ some value
    → has_flag flag c ≡ (value == flag)
unfolding has_flag contains get
has_flag-found flag value c e = rw (contains, e) (rw (get, e) refl)

pub Browse_lem : Command.parse "Browse" ≡ browse
unfolding Command.parse c_str
Browse_lem = refl

module _ (r : Redis) (db : r.Db) (xml : XmlLib) (config : Config) where
  -- What is written for the children of an object.
  abbrev pub children_response : String → Didl → String
  children_response object_id d =
      soap_envelope xml (Didl.str xml d) (pos (children_of d.root_node d.doc.ops))
        (Data.children_count r db (object_key object_id))

  browse-children :
      (c : UpnpCommand) (object_id : String) (index requested : ℤ) (d : Didl)
      → Asks "BrowseDirectChildren" (λ key. find key c.values) object_id index requested
      → browse_children r db config (object_key object_id) index (browse_count requested) ≡ ok d
      → Browse.browse r db xml config c ≡ ok (some (children_response object_id d))
  unfolding Browse.browse browse_object
  browse-children c object_id index requested d asks h =
      rw
        (
          Browse.browse,
          int_argument-found "StartingIndex" asks.index_text index c asks.starts asks.index_read,
          int_argument-found "RequestedCount" asks.count_text requested c asks.counts
              asks.count_read,
          get-found "ObjectID" object_id c asks.object,
          has_flag-found "BrowseMetadata" "BrowseDirectChildren" c asks.browse_flag,
          has_flag-found "BrowseDirectChildren" "BrowseDirectChildren" c asks.browse_flag,
          h,
        )
        (ap
          (λ n. ok (
            some (
              soap_envelope xml (Didl.str xml d) (pos n)
                (Data.children_count r db (object_key object_id)))))
          (sym (
            browse_children-count r db config (object_key object_id) index (browse_count requested)
              d h)))

  browse_action :
      (names : Names) (type : CommandType) (values : StdMap String) (text : String)
      → type ≡ browse
      → Browse.browse r db xml config (record { type = type; values = values }) ≡ ok (some text)
      → cds_command r db xml names config (record { type = type; values = values }) []
        ≡ (ok tt, write text ∷ [])
  unfolding cds_command call
  browse_action names browse values text is_browse h = rw h refl
  browse_action names _ values text is_browse h = absurd (cc is_browse)

  browse-metadata :
      (c : UpnpCommand) (object_id : String) (index requested : ℤ) (d : Didl)
      → Asks "BrowseMetadata" (λ key. find key c.values) object_id index requested
      → browse_metadata r db config object_id (object_key object_id) ≡ ok d
      → Browse.browse r db xml config c
        ≡ ok (some (soap_envelope xml (Didl.str xml d) (pos 1) (pos 1)))
  unfolding Browse.browse browse_object
  browse-metadata c object_id index requested d asks h =
      rw
        (
          Browse.browse,
          int_argument-found "StartingIndex" asks.index_text index c asks.starts asks.index_read,
          int_argument-found "RequestedCount" asks.count_text requested c asks.counts
              asks.count_read,
          get-found "ObjectID" object_id c asks.object,
          has_flag-found "BrowseMetadata" "BrowseMetadata" c asks.browse_flag,
          h,
        )
        refl

  -- A POST whose action is Browse, and for whose values this text is browsed.
  cds_browse :
      (names : Names) (request : Request) (args : Arguments) (text : String)
      → request.method ≡ "POST"
      → xml.parse (c_str request.str) ≡ root (envelope "Browse" args)
      → ((c : UpnpCommand)
          → ((key : String) → find key c.values ≡ last_value key args none)
          → Browse.browse r db xml config c ≡ ok (some text))
      → cds r db xml names config request []
        ≡ (ok tt, write text ∷ parameter names.content_type names.mime_xml ∷ [])
  unfolding cds cds_method
  cds_browse names request args text post parsed browsed =
      let (c, read, type, values) = parse_request-envelope xml request.str "Browse" args parsed in
      let written =
        browse_action names c.type c.values text (type ∙ Browse_lem) (browsed c values) in
      rw (post, read) (rw written refl)

  -- A POST with a Browse action for the direct children of an object, whose starting index and
  -- requested count are read, and whose children are browsed without a throw, returns and makes
  -- two calls of the response: the envelope is written, with the document of the objects, the
  -- number of objects below its root as the number returned and the number of children as the
  -- total, and the type of the content is set.
  pub cds_browse_children :
      (names : Names) (request : Request) (args : Arguments) (object_id : String)
      (index requested : ℤ) (d : Didl)
      → request.method ≡ "POST"
      → xml.parse (c_str request.str) ≡ root (envelope "Browse" args)
      → Asks "BrowseDirectChildren" (λ key. last_value key args none) object_id index requested
      → browse_children r db config (object_key object_id) index (browse_count requested) ≡ ok d
      → cds r db xml names config request [] ≡ (
        ok tt,
        write (children_response object_id d) ∷ parameter names.content_type names.mime_xml ∷ [],
      )
  cds_browse_children names request args object_id index requested d post parsed asks h =
      cds_browse names request args (children_response object_id d) post parsed (λ c values.
        browse-children c object_id index requested d
          (asked "BrowseDirectChildren" args c values object_id index requested asks) h)

  -- A POST with a Browse action for the metadata of an object that has no fields in the data
  -- store, whose starting index and requested count are read, succeeds: the envelope names one
  -- object as returned and one as the total, while the document in it has no object.
  pub cds_browse_missing :
      (names : Names) (request : Request) (args : Arguments) (object_id : String)
      (index requested : ℤ)
      → request.method ≡ "POST"
      → xml.parse (c_str request.str) ≡ root (envelope "Browse" args)
      → Asks "BrowseMetadata" (λ key. last_value key args none) object_id index requested
      → Data.node r db (object_key object_id) ≡ ok []
      → (cds r db xml names config request [] ≡ (
        ok tt,
        write (soap_envelope xml (Didl.str xml (new_didl config)) (pos 1) (pos 1))
            ∷ parameter names.content_type names.mime_xml
            ∷ [],
      ))
        × (children_of (new_didl config).root_node (new_didl config).doc.ops ≡ 0)
  unfolding browse_metadata new_didl find DidlWrite.write
  cds_browse_missing names request args object_id index requested post parsed asks missing = (
    cds_browse names request args
        (soap_envelope xml (Didl.str xml (new_didl config)) (pos 1) (pos 1)) post parsed
        (λ c values.
          browse-metadata c object_id index requested (new_didl config)
            (asked "BrowseMetadata" args c values object_id index requested asks)
            (rw (missing, browse_metadata) refl)),
    refl,
  )
