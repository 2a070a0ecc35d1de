-- ===== src/Command/Laws.antt =====
-- Which names are read as which action, and what a request's arguments become.
use upnp.Prelude.{
  String, ◌≡◌, ◌≢◌, ◌↔◌, ◌⊎◌, refl, sym, ap, ◌∙◌, inl, inr, true, Option, none, some, Option-cases,
  List, [], ◌∷◌, ◌==◌, eq_iff, eq_refl, arith, ok, if◌then◌else◌,
}
use upnp.Prelude.StdMap
use upnp.Prelude.StdMap.{StdMap, find-put}
use upnp.Prelude.Text.{c_str}
use upnp.Xml.{XmlNode, XmlNodes, node, nil, cons, for_siblings, root, XmlLib}
use upnp.Command.{
  CommandType, nothing, browse, get_protocol_info, sort_capabilities, search_capabilities,
  system_update_id, current_connection_ids, current_connection_info, UpnpCommand, str, parse_name,
  parse, contains, get, parse_argument, parse_request,
}

-- The actions by their names in the service descriptions.
abbrev pub action_name : CommandType → String
action_name browse = "Browse"
action_name get_protocol_info = "GetProtocolInfo"
action_name sort_capabilities = "GetSortCapabilities"
action_name search_capabilities = "GetSearchCapabilities"
action_name system_update_id = "GetSystemUpdateID"
action_name current_connection_ids = "GetCurrentConnectionIDs"
action_name current_connection_info = "GetCurrentConnectionInfo"
action_name nothing = ""

-- One test of `parse_name`.
test_cases :
    (s n : String) (t rest : CommandType)
    → action_name t ≡ n
    → (rest ≡ nothing) ⊎ (s ≡ action_name rest)
    → ((if s == n then t else rest) ≡ nothing) ⊎ (s ≡ action_name (if s == n then t else rest))
test_cases s n t rest e h = ground (arith, eq_iff s n)

parse_name_cases : (s : String) → (parse_name s ≡ nothing) ⊎ (s ≡ action_name (parse_name s))
unfolding parse_name
parse_name_cases s = test_cases s _ browse _ refl (
    test_cases s _ search_capabilities _ refl (
      test_cases s _ sort_capabilities _ refl (
        test_cases s _ system_update_id _ refl (
          test_cases s _ current_connection_ids _ refl (
            test_cases s _ current_connection_info _ refl
              (test_cases s _ get_protocol_info _ refl (inl refl)))))))

parse_name-action_name : (t : CommandType) → parse_name (action_name t) ≡ t
unfolding parse_name
parse_name-action_name browse = refl
parse_name-action_name _ = refl

-- A name is read as an action other than NONE exactly if, up to its first NUL, it is the name of
-- that action.
parse-eq_iff :
    (s : String) (t : CommandType) → t ≢ nothing → (parse s ≡ t) ↔ (c_str s ≡ action_name t)
unfolding parse
parse-eq_iff s t ne = (
  λ e. elim (parse_name_cases (c_str s)) [
    | inl n ↦ absurd (ne (sym e ∙ n))
    | inr n ↦ n ∙ ap action_name e
  ],
  λ e. ap parse_name e ∙ parse_name-action_name t,
)

-- The text of each action type is read back as the type, but for BROWSE, whose text is read as
-- NONE.
parse-str_or_nothing :
    (t : CommandType) → parse (str t) ≡ (if str t == "BrowseFlag" then nothing else t)
unfolding parse str
parse-str_or_nothing browse = refl
parse-str_or_nothing _ = refl

contains_of_find :
    (key : String) (c : UpnpCommand) {v : String}
    → StdMap.find key c.values ≡ some v
    → contains key c ≡ true
unfolding contains
contains_of_find key c e = rw (e, contains)

-- Reading a value by UpnpCommand::get gives the value that is there, else an empty text;
-- afterwards the key is there, and any other key has what it had.
get_lem :
    (key other : String) (c : UpnpCommand)
    → key ≢ other
    → ((get key c).0 ≡ elim (StdMap.find key c.values) [ none ↦ "" | some v ↦ v ])
      × (contains key (get key c).1 ≡ true)
      × (StdMap.find other (get key c).1.values ≡ StdMap.find other c.values)
unfolding get contains
get_lem key other c ne = elim (Option-cases (StdMap.find key c.values)) [
  | inl e ↦ (
    rw (e, get),
    rw (e, get)
        (contains_of_find key (record c { values = StdMap.put key "" c.values }) {v = ""}
          (find-put key key "" c.values ∙ rw (eq_refl key))),
    rw (e, get) (ground (arith, find-put key other "" c.values, eq_iff key other)),
  )
  | inr (v, e) ↦ (rw (e, get), rw (e, get) (contains_of_find key c e), rw (e, get))
]

abbrev pub Arguments : Type 0
Arguments = List (String × String)

abbrev pub argument_nodes : Arguments → XmlNodes
argument_nodes [] = nil
argument_nodes ((k, v) ∷ args) = cons (node k v nil) (argument_nodes args)

-- The envelope of a request: a body with one action, whose children are the arguments.
abbrev pub envelope : String → Arguments → XmlNode
envelope action args =
    node "Envelope" "" (cons (node "Body" "" (cons (node action "" (argument_nodes args)) nil)) nil)

-- The value of the last argument of a name.
abbrev pub last_value : String → Arguments → Option String → Option String
last_value key [] before = before
last_value key ((k, v) ∷ args) before = last_value key args (if k == key then some v else before)

arguments_lem :
    (args : Arguments) (c : UpnpCommand)
    → ((for_siblings "*" (argument_nodes args) parse_argument c).type ≡ c.type)
      × ((key : String)
          → StdMap.find key (for_siblings "*" (argument_nodes args) parse_argument c).values
            ≡ last_value key args (StdMap.find key c.values))
unfolding for_siblings parse_argument
arguments_lem [] c = (refl, λ key. refl)
arguments_lem ((k, v) ∷ args) c =
    let (same, values) = arguments_lem args (parse_argument (node k v nil) c) in
    (same, λ key. values key ∙ ap (last_value key args) (find-put k key v c.values))

-- Where the XML library reads a text as a SOAP envelope with one action in its body, Server::parse
-- reads it as that action, with the value of the last argument of each name and no other value.
pub parse_request-envelope :
    (xml : XmlLib) (body action : String) (args : Arguments)
    → xml.parse (c_str body) ≡ root (envelope action args)
    → (c : UpnpCommand) × (parse_request xml body ≡ ok c)
      × (c.type ≡ parse action)
      × ((key : String) → StdMap.find key c.values ≡ last_value key args none)
unfolding parse_request StdMap.find
parse_request-envelope xml body action args e =
    let read = arguments_lem args (record { type = parse action; values = [] }) in
    (_, rw (e, parse_request), read.0, read.1)
