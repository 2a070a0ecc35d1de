-- ===== src/Datastore/Keys/Laws.antt =====
-- Keys of different nodes, and of different kinds, do not collide.
use Prim.Native.String.{◌++◌, count}
use text.Mathlib.TextLemmas.{append_cancel_left, append_cancel_right, append_inj, length-append}
use upnp.Prelude.{
  String, ◌≡◌, ◌≢◌, refl, sym, ap, ◌∙◌, arith, List, [], ◌∷◌, true, ◌==◌, eq_iff, All, Bool-cases,
  inl, inr,
}
use upnp.Datastore.Key
use upnp.Datastore.NodeType.{str, parse, valid}
use upnp.Datastore.NodeType.Laws.{str-parse_iff}
use upnp.Datastore.Keys.{menu, mod_in, is_mod, make_key_node, make_key_list, make_key_list_type}

node_form : (key : String) → make_key_node key ≡ (Key.fs ++ (":" ++ key)) ++ ":node"
unfolding make_key_node
node_form key = refl

list_form : (key : String) → make_key_list key ≡ (Key.fs ++ (":" ++ key)) ++ ":list"
unfolding make_key_list
list_form key = refl

middle :
    (a b tail : String) → (Key.fs ++ (":" ++ a)) ++ tail ≡ (Key.fs ++ (":" ++ b)) ++ tail → a ≡ b
middle a b tail h =
    append_cancel_left ":" a b (append_cancel_left Key.fs _ _ (append_cancel_right _ _ tail h))

-- Different keys have different node keys.
make_key_node-injective : (a b : String) → make_key_node a ≡ make_key_node b → a ≡ b
make_key_node-injective a b h = middle a b ":node" (sym (node_form a) ∙ h ∙ node_form b)

-- Different keys have different lists of children.
pub make_key_list-injective : (a b : String) → make_key_list a ≡ make_key_list b → a ≡ b
make_key_list-injective a b h = middle a b ":list" (sym (list_form a) ∙ h ∙ list_form b)

tails_differ : (s t : String) → s ++ ":node" ≢ t ++ ":list"
tails_differ s t h =
    let counted = ap count h in
    let same : count s ≡ count t =
      omega (arith, length-append s ":node", length-append t ":list") in
    let differ = (append_inj h same).1 in ground (arith, eq_iff ":node" ":list")

-- A node's fields and a node's list of children never share a key, whatever the two nodes.
pub make_key_node-ne-list : (a b : String) → make_key_node a ≢ make_key_list b
make_key_node-ne-list a b h = tails_differ _ _ (sym (node_form a) ∙ h ∙ list_form b)

mod_in-All {ℓ} :
    (P : String → Type ℓ) (s : String) (ms : List (String × String))
    → All (λ m. P m.1) ms
    → mod_in s ms ≡ true
    → P s
unfolding mod_in
mod_in-All P s [] a h = cc
mod_in-All P s ((name, t) ∷ ms) (p, a) h = elim (Bool-cases (t == s)) [
  | inl e ↦ rw (sym ((eq_iff t s).0 e)) p
  | inr e ↦ mod_in-All P s ms a (ground arith)
]

menu-valid : All (λ m. valid m.1 ≡ true) menu
unfolding valid
menu-valid = (refl, (refl, (refl, (refl, (refl, (refl, (refl, tt)))))))

-- The children of a menu entry are the global list of the entry's type.
make_key_list-is_mod :
    (path : String) → is_mod path ≡ true → make_key_list path ≡ make_key_list_type (parse path)
unfolding make_key_list make_key_list_type is_mod str
make_key_list-is_mod path h =
    let same = (str-parse_iff path).1 (mod_in-All (λ p. valid p ≡ true) path menu menu-valid h) in
    ap (λ p. (Key.fs ++ (":" ++ p)) ++ ":list") (sym same)
