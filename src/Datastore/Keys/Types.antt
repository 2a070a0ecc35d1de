-- ===== src/Datastore/Keys/Types.antt =====
-- The keys of the files of one type do not collide with each other, nor with a list of children.
use Prim.Native.String.{◌++◌, count}
use text.Mathlib.TextLemmas.{
  append_cancel_left, append_cancel_right, append_inj, append_assoc, length-append,
}
use upnp.Prelude.{String, ◌≡◌, ◌≢◌, refl, sym, ap, ◌∙◌, arith, ◌==◌, eq_iff, if◌then◌else◌}
use upnp.Datastore.Key
use upnp.Datastore.NodeType.{
  NodeType, folder, audio, movie, serie, image, ebook, file, album, cover, episode, artist, str,
}
use upnp.Datastore.Keys.{make_key_list, make_key_types}

-- The last five characters of `:types:` with the name of a type, and what stands before them.
abbrev ending : NodeType → String
ending folder = "older"
ending audio = "audio"
ending movie = "movie"
ending serie = "serie"
ending image = "image"
ending ebook = "ebook"
ending file = ":file"
ending album = "album"
ending cover = "cover"
ending episode = "isode"
ending artist = "rtist"

abbrev before_ending : NodeType → String
before_ending folder = ":types:f"
before_ending file = ":types"
before_ending episode = ":types:ep"
before_ending artist = ":types:a"
before_ending _ = ":types:"

abbrev of_ending : String → NodeType
of_ending s =
    if s == "older"
    then folder
    else if s == "audio"
    then audio
    else if s == "movie"
    then movie
    else if s == "serie"
    then serie
    else if s == "image"
    then image
    else if s == "ebook"
    then ebook
    else if s == "album"
    then album
    else if s == "cover"
    then cover
    else if s == "isode"
    then episode
    else if s == "rtist"
    then artist
    else file

of_ending-ending : (t : NodeType) → of_ending (ending t) ≡ t
of_ending-ending folder = refl
of_ending-ending _ = refl

count-ending : (t : NodeType) → count (ending t) ≡ 5
count-ending folder = refl
count-ending _ = refl

split : (t : NodeType) → ":types" ++ (":" ++ str t) ≡ before_ending t ++ ending t
unfolding str
split folder = refl
split _ = refl

types_form :
    (key : String) (t : NodeType)
    → make_key_types key t ≡ ((Key.fs ++ (":" ++ key)) ++ before_ending t) ++ ending t
unfolding make_key_types
types_form key t =
    let path = Key.fs ++ (":" ++ key) in
    append_assoc path ":types" (":" ++ str t)
    ∙ (ap (λ rest. path ++ rest) (split t) ∙ sym (append_assoc path (before_ending t) (ending t)))

list_form : (key : String) → make_key_list key ≡ (Key.fs ++ (":" ++ key)) ++ ":list"
unfolding make_key_list
list_form key = refl

not_list : (t : NodeType) → ending t ≢ ":list"
not_list t h = is_file t (ap of_ending h) h
  where
    is_file : (t : NodeType) → of_ending (ending t) ≡ file → ending t ≢ ":list"
    is_file file e h = ground (arith, eq_iff ":file" ":list")
    is_file t e h = cc (of_ending-ending t)

-- Two texts that are equal have the same last five characters.
endings :
    (s s' e e' : String) → count e ≡ 5 → count e' ≡ 5 → s ++ e ≡ s' ++ e' → (s ≡ s') × (e ≡ e')
endings s s' e e' five five' h =
    let counted = ap count h in
    let same : count s ≡ count s' =
      omega (arith, length-append s e, length-append s' e', five, five', counted) in
    append_inj h same

-- A node's files of one type and another node's list of children never share a key.
pub make_key_types-ne-list : (a b : String) (t : NodeType) → make_key_types a t ≢ make_key_list b
make_key_types-ne-list a b t h =
    let (_, same) =
      endings ((Key.fs ++ (":" ++ a)) ++ before_ending t) (Key.fs ++ (":" ++ b)) (ending t) ":list"
        (count-ending t) refl (sym (types_form a t) ∙ (h ∙ list_form b)) in
    not_list t same

-- The files of different nodes, or of different types, have different keys.
pub make_key_types-injective :
    (a b : String) (t u : NodeType) → make_key_types a t ≡ make_key_types b u → (a ≡ b) × (t ≡ u)
make_key_types-injective a b t u h =
    let (start, same) =
      endings ((Key.fs ++ (":" ++ a)) ++ before_ending t)
        ((Key.fs ++ (":" ++ b)) ++ before_ending u) (ending t) (ending u) (count-ending t)
        (count-ending u) (sym (types_form a t) ∙ (h ∙ types_form b u)) in
    let type : t ≡ u = sym (of_ending-ending t) ∙ (ap of_ending same ∙ of_ending-ending u) in
    let start' : (Key.fs ++ (":" ++ a)) ++ before_ending u
        ≡ (Key.fs ++ (":" ++ b)) ++ before_ending u =
      rw type at start in
    (
      append_cancel_left ":" a b
          (append_cancel_left Key.fs _ _ (append_cancel_right _ _ (before_ending u) start')),
      type,
    )
