-- ===== src/Xml/Tree.antt =====
-- The tree that the calls on a document make, as a parser of the printed document reads it.
use Prim.Native.String.{◌∷◌}
use upnp.Prelude.{ℕ, zero, suc, String, code, List, [], nat_eq, if◌then◌else◌}
use upnp.Prelude as P
use upnp.Xml.{
  XmlNodes, node, nil, cons, Op, append_node, append_attribute, Doc, Parsed, root, no_root,
}

-- What `local_name` gives: the name behind its first colon, or all of it.
unfoldable pub behind_colon : String → String → String
behind_colon whole String.[] = whole
behind_colon whole (c ∷ rest) =
    let more = behind_colon whole rest in if nat_eq (code c) b':' then rest else more

-- The nodes of a parent among the calls from the one that makes node `number`; `fuel` bounds the depth.
unfoldable pub below : ℕ → List Op → ℕ → ℕ → List Op → XmlNodes
unfolding behind_colon
below zero all parent number ops = nil
below (suc fuel) all parent number P.[] = nil
below (suc fuel) all parent number (P.◌∷◌ (append_attribute owner name value) ops) =
    below (suc fuel) all parent number ops
below (suc fuel) all parent number (P.◌∷◌ (append_node p name value) ops) =
    let rest = below (suc fuel) all parent (suc number) ops in
    let inner = below fuel all number 1 all in
    if nat_eq p parent then cons (node (behind_colon name name) value inner) rest else rest

abbrev first_root : XmlNodes → Parsed
first_root nil = no_root
first_root (cons n rest) = root n

-- A document whose nodes are at most `depth` deep.
unfoldable pub read_back : ℕ → Doc → Parsed
unfolding below
read_back depth doc = first_root (below depth doc.ops 0 1 doc.ops)
