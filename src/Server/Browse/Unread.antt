-- ===== src/Server/Browse/Unread.antt =====
-- Browse requests whose numbers cannot be read.
use upnp.Prelude.{String, ◌≡◌, refl, ap, ◌∙◌, Option, none, some, [], Fault, Result, ok, err, ◌>>=◌}
use upnp.Prelude.Number.{ℤ, pos, stoi}
use upnp.Prelude.StdMap.{StdMap, find}
use upnp.Prelude.Text.{c_str}
use upnp.Config.{Config}
use upnp.Datastore.Redis.{Redis}
use upnp.Xml.{XmlLib, root}
use upnp.Command.{UpnpCommand, CommandType, browse, get, contains}
use upnp.Command.Laws.{Arguments, envelope, last_value, parse_request-envelope}
use upnp.Server.Http.{Request, Names}
use upnp.Server.Browse
use upnp.Server.Browse.{int_argument, browse_object, browse_count}
use upnp.Server.Browse.Response.{Browse_lem}
use upnp.Server.Control.{cds, cds_method, cds_command}

-- The number that an argument gives, 0 where it is not there.
abbrev pub number : Option String → Result ℤ
number none = ok (pos 0)
number (some text) = stoi text

abbrev pub both : Result ℤ → Result ℤ → Result (ℤ × ℤ)
both first second = do a ← first; b ← second; ok (a, b)

-- The numbers of a browse request, the starting index first.
abbrev pub numbers : Arguments → Result (ℤ × ℤ)
numbers args =
    both (number (last_value "StartingIndex" args none))
      (number (last_value "RequestedCount" args none))

int_argument-number :
    (key : String) (c : UpnpCommand) → int_argument key c ≡ number (find key c.values)
unfolding int_argument contains get
int_argument-number key c = found (find key c.values) refl
  where
    found : (v : Option String) → find key c.values ≡ v → int_argument key c ≡ number v
    found none e = rw (int_argument, contains, e) refl
    found (some text) e = rw (int_argument, contains, get, e) refl

-- What is done with two numbers is not done where one of them is not read.
unread_first :
    {A : Type 0} (index requested : Result ℤ) (next : ℤ → ℤ → Result A) {fault : Fault}
    → both index requested ≡ err fault
    → (index >>= λ i. requested >>= λ n. next i n) ≡ err fault
unread_first (ok i) (ok n) next h = absurd (cc h)
unread_first (ok i) (err f) next h = cc
unread_first (err f) requested next h = cc

module _ (r : Redis) (db : r.Db) (xml : XmlLib) (names : Names) (config : Config) where
  browse-err :
      (c : UpnpCommand) (args : Arguments) (fault : Fault)
      → ((key : String) → find key c.values ≡ last_value key args none)
      → numbers args ≡ err fault
      → Browse.browse r db xml config c ≡ err fault
  unfolding Browse.browse
  browse-err c args fault values h =
      let index = int_argument-number "StartingIndex" c ∙ ap number (values "StartingIndex") in
      let requested =
        int_argument-number "RequestedCount" c ∙ ap number (values "RequestedCount") in
      unread_first (int_argument "StartingIndex" c) (int_argument "RequestedCount" c)
        (λ i n.
          browse_object r db xml config (get "ObjectID" c).1 (get "ObjectID" c).0 i
            (browse_count n))
        (rw (index, requested) h)

  action-err :
      (type : CommandType) (values : StdMap String) (fault : Fault)
      → type ≡ browse
      → Browse.browse r db xml config (record { type = type; values = values }) ≡ err fault
      → cds_command r db xml names config (record { type = type; values = values }) []
        ≡ (err fault, [])
  unfolding cds_command
  action-err browse values fault is_browse h = rw h refl
  action-err _ values fault is_browse h = absurd (cc is_browse)

  -- A POST with a Browse action whose starting index is there but not read as an int, or whose
  -- requested count is, makes the handler throw as std::stoi does, the index first, and no call of
  -- the response is made.
  pub cds_browse_unread :
      (request : Request) (args : Arguments) (fault : Fault)
      → request.method ≡ "POST"
      → xml.parse (c_str request.str) ≡ root (envelope "Browse" args)
      → numbers args ≡ err fault
      → cds r db xml names config request [] ≡ (err fault, [])
  unfolding cds cds_method
  cds_browse_unread request args fault post parsed h =
      let (c, read, type, values) = parse_request-envelope xml request.str "Browse" args parsed in
      rw
        (
          post,
          read,
          action-err c.type c.values fault (type ∙ Browse_lem) (browse-err c args fault values h),
        )
        refl
