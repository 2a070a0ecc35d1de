-- ===== src/Xml.antt =====
-- The program's use of rapidxml, which comes from outside the repository.
-- Reading: a parsed document is the tree that `first_node`, `next_sibling`, `local_name` and `value`
-- walk. Writing: a document is the sequence of the library's calls that `element` and `attr` of
-- src/_utils.h make; printing it is the library's.
pub mod Tree
use upnp.Prelude.{ℕ, suc, String, Bool, ◌||◌, Option, List, [], ◌∷◌, ◌++◌, ◌==◌, if◌then◌else◌}
use upnp.Prelude.Text.{c_str}

mutual
  pub data XmlNode : Type 0 where
    node : (local_name value : String) → XmlNodes → XmlNode

  pub data XmlNodes : Type 0 where
    nil : XmlNodes
    cons : XmlNode → XmlNodes → XmlNodes

abbrev pub local_name : XmlNode → String
local_name (node n v c) = n

abbrev pub value : XmlNode → String
value (node n v c) = v

abbrev pub children : XmlNode → XmlNodes
children (node n v c) = c

-- Whether `FOR` calls its function on a node of this name.
abbrev pub selects : String → String → Bool
selects wanted name = wanted == "*" || name == wanted

-- The loop of `FOR` over the siblings, for a function that changes `s`.
unfoldable pub for_siblings {ℓ} : {S : Type ℓ} → String → XmlNodes → (XmlNode → S → S) → S → S
for_siblings wanted nil fn s = s
for_siblings wanted (cons n rest) fn s =
    for_siblings wanted rest fn (if selects wanted (local_name n) then fn n s else s)

-- `FOR( wanted, n, fn )`
unfoldable pub for_children {ℓ} : {S : Type ℓ} → String → XmlNode → (XmlNode → S → S) → S → S
unfolding for_siblings
for_children wanted n fn s = for_siblings wanted (children n) fn s

-- What `parse< 0 >` does: it throws, or gives a document with or without a root node.
pub data Parsed : Type 0 where
  malformed no_root : Parsed
  root : XmlNode → Parsed

-- A call that adds to a document. Node 0 is the document itself, the others are numbered as they are
-- allocated.
pub data Op : Type 0 where
  append_node : (parent : ℕ) (name value : String) → Op
  append_attribute : (owner : ℕ) (name value : String) → Op

pub record Doc : Type 0 where
  pub ops : List Op
  pub nodes : ℕ

abbrev pub empty_doc : Doc
empty_doc = record { ops = []; nodes = 0 }

unfoldable pub element : Doc → ℕ → String → String → Doc × ℕ
unfolding c_str
element doc parent name value = (
  record {
    ops = doc.ops ++ append_node parent (c_str name) (c_str value) ∷ [];
    nodes = suc doc.nodes;
  },
  suc doc.nodes,
)

unfoldable pub attr : Doc → ℕ → String → String → Doc
unfolding c_str
attr doc owner name value = record doc {
  ops = doc.ops ++ append_attribute owner (c_str name) (c_str value) ∷ [];
}

-- rapidxml, as far as the program uses it.
pub record XmlLib : Type 0 where
  pub parse : String → Parsed
  pub print : Doc → String
