-- ===== src/Didl/Write/Count.antt =====
-- `Didl::count` is the number of children of the root node.
use upnp.Prelude.{
  ℕ, suc, ltb, Bool-cases, ◌≤◌, String, ◌≡◌, refl, sym, ap, ◌∙◌, Option-cases, inl, inr, [], ◌∷◌,
  arith, Result, ok, err, if◌then◌else◌,
}
use upnp.Prelude.Exec.{continue}
use upnp.Prelude.Number.{int_limit}
use upnp.Prelude.StdMap.{StdMap, find}
use upnp.Prelude.Text.{c_str}
use upnp.Datastore.Param
use upnp.Datastore.NodeType
use upnp.Datastore.NodeType.{NodeType}
use upnp.Datastore.Redis.{Redis}
use upnp.Config.{Config}
use upnp.Xml.{append_node, element}
use upnp.Didl.{Didl, new_didl, is_container, add_element}
use upnp.Didl.Write.{done, write_body, root_of, write_item, write}
use upnp.Didl.Write.Inside.{children_of, children_of-append, Same, Inside-write_body}

-- The children of the root node are counted by `result_`, and the root node has been allocated.
pub record IsCounted (d : Didl) : Type 0 where
  pub counted : children_of d.root_node d.doc.ops ≡ d.result
  pub placed : d.root_node ≤ d.doc.nodes

-- How a call of `write` may end: counted, or with a node that is not.
abbrev pub Ends : Result (Unit {0}) → Didl → Type 0
Ends (ok _) d = IsCounted d
Ends (err _) d = (children_of d.root_node d.doc.ops ≡ suc d.result) × (d.root_node ≤ d.doc.nodes)

-- A document that has one node more than are counted.
Ends-done :
    (r : Result (Unit {0})) (d : Didl)
    → children_of d.root_node d.doc.ops ≡ suc d.result
    → d.root_node ≤ d.doc.nodes
    → Ends (continue r d (λ _. done)).0 (continue r d (λ _. done)).1
unfolding done
Ends-done (ok _) d c p = elim (Bool-cases (ltb (suc d.result) int_limit)) [
  | inl small ↦ rw small (record { counted = c; placed = p })
  | inr large ↦ rw large (c, p)
]
Ends-done (err e) d c p = (c, p)

pub IsCounted-new_didl : (c : Config) → IsCounted (new_didl c)
unfolding new_didl
IsCounted-new_didl c = record { counted = refl; placed = omega arith }

-- The document when the container or item node has been appended.
abbrev pub with_item : NodeType → Didl → Didl
with_item type d = record d {
  doc = (element d.doc d.root_node (if is_container type then "container" else "item") "").0;
}

children_of-with_item :
    (type : NodeType) (d : Didl)
    → IsCounted d
    → children_of d.root_node (with_item type d).doc.ops ≡ suc d.result
unfolding element
children_of-with_item type d h =
    let name : String = c_str (if is_container type then "container" else "item") in
    ground (arith, children_of-append d.root_node d.doc.ops (append_node d.root_node name "" ∷ []))

children_of-Same :
    {root : ℕ} (d d' : Didl)
    → d.root_node ≡ root
    → Same root d d'
    → children_of root d.doc.ops ≡ suc d.result
    → children_of d'.root_node d'.doc.ops ≡ suc d'.result
children_of-Same d d' e s h = rw (s.root_node, e) (s.children ∙ h ∙ ap suc (sym s.result))

module _ (r : Redis) (db : r.Db) where
  Ends-write_item :
      (type : NodeType) (key : String) (values : StdMap String) (d : Didl)
      → IsCounted d
      → Ends (write_item r db type key values d).0 (write_item r db type key values d).1
  unfolding write_item root_of add_element element
  Ends-write_item type key values d h =
      let node : ℕ = suc d.doc.nodes in
      let (result, d') = write_body r db type key node values (with_item type d) in
      let below = Inside-write_body r db {root = d.root_node} values node (omega arith) type key in
      let same = below.at_doc (with_item type d) in
      Ends-done result d'
        (children_of-Same (with_item type d) d' refl same (children_of-with_item type d h))
        (omega (arith, same.nodes, same.root_node))

  -- If the objects below the root are counted before a call of Didl::write, they are counted after
  -- it where it returns; where it throws, the half-written object stands in the document and is
  -- not counted.
  pub write-Ends :
      (key : String) (values : StdMap String) (d : Didl)
      → IsCounted d
      → Ends (write r db key values d).0 (write r db key values d).1
  unfolding write
  write-Ends key values d h = elim (Option-cases (find Param.cls values)) [
    | inl e ↦ rw (e, write) h
    | inr (cls, e) ↦ rw (e, write) (Ends-write_item (NodeType.parse cls) key values d h)
  ]
