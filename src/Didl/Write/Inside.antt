-- ===== src/Didl/Write/Inside.antt =====
-- What the parts of `Didl::write` leave alone: none of them appends to the root node or counts.
use upnp.Prelude.{
  ℕ, ◌+◌, ◌≤◌, String, ◌≡◌, ◌≢◌, refl, ◌∙◌, nat_eq, Option-cases, inl, inr, List, [], ◌∷◌, ◌++◌,
  arith, Result, ok, err, if◌then◌else◌,
}
use upnp.Prelude.Exec.{Exec, continue, pure, ◌>>=◌}
use upnp.Prelude.StdMap.{StdMap, find}
use upnp.Prelude.Text.{c_str}
use upnp.Datastore.Param
use upnp.Datastore.NodeType.{NodeType, folder, audio, episode}
use upnp.Datastore.Redis.{Redis}
use upnp.Xml.{Op, append_node, append_attribute}
use upnp.Didl.{Didl, add_element, add_attr}
use upnp.Didl.Write.{
  at, optional_element, optional_attr, write_title, write_details, cds_uri, write_thumb,
  write_resolution, open_res, write_res, write_art, write_body,
}

-- The nodes that a sequence of calls has appended to one node.
abbrev pub children_of : ℕ → List Op → ℕ
children_of root [] = 0
children_of root (append_node parent name value ∷ ops) =
    (if nat_eq parent root then 1 else 0) + children_of root ops
children_of root (append_attribute owner name value ∷ ops) = children_of root ops

pub children_of-append :
    (root : ℕ) (xs ys : List Op)
    → children_of root (xs ++ ys) ≡ children_of root xs + children_of root ys
children_of-append root [] ys = omega arith
children_of-append root (append_node p n v ∷ xs) ys = omega (arith, children_of-append root xs ys)
children_of-append root (append_attribute o n v ∷ xs) ys = children_of-append root xs ys

-- What the calls below `root` leave alone.
pub record Same (root : ℕ) (d d' : Didl) : Type 0 where
  pub result : d'.result ≡ d.result
  pub root_node : d'.root_node ≡ d.root_node
  pub children : children_of root d'.doc.ops ≡ children_of root d.doc.ops
  pub nodes : d.doc.nodes ≤ d'.doc.nodes

Same-refl : (root : ℕ) (d : Didl) → Same root d d
Same-refl root d = record { result = refl; root_node = refl; children = refl; nodes = omega arith }

Same-trans : {root : ℕ} {a b c : Didl} → Same root a b → Same root b c → Same root a c
Same-trans p q = record {
  result = q.result ∙ p.result;
  root_node = q.root_node ∙ p.root_node;
  children = q.children ∙ p.children;
  nodes = omega arith;
}

-- `m` appends nothing to the node `root`, and counts nothing.
pub record Inside {A : Type 0} (root : ℕ) (m : Exec Didl A) : Type 0 where
  pub at_doc : (d : Didl) → Same root d (m d).1

Inside-pure : {A : Type 0} {root : ℕ} (a : A) → Inside root (pure a)
Inside-pure {root} a = record { at_doc = λ d. Same-refl root d }

module _ {A B : Type 0} {root : ℕ} where
  Same-continue :
      (f : A → Exec Didl B)
      → ((a : A) → Inside root (f a))
      → (r : Result A) (d : Didl) → Same root d (continue r d f).1
  Same-continue f inside (ok a) d = (inside a).at_doc d
  Same-continue f inside (err e) d = Same-refl root d

  Inside-bind :
      (m : Exec Didl A) (f : A → Exec Didl B)
      → Inside root m
      → ((a : A) → Inside root (f a))
      → Inside root (m >>= f)
  Inside-bind m f im inside = record {
    at_doc = λ d. let (r, d') = m d in Same-trans (im.at_doc d) (Same-continue f inside r d');
  }

module _ {root : ℕ} where
  Inside-at : (key : String) (values : StdMap String) → Inside root (at key values)
  unfolding at
  Inside-at key values = record {
    at_doc = λ d. elim (Option-cases (find key values)) [
      | inl e ↦ rw (e, at) (Same-refl root d)
      | inr (v, e) ↦ rw (e, at) (Same-refl root d)
    ];
  }

  Inside-cds_uri : Inside root cds_uri
  unfolding cds_uri
  Inside-cds_uri = record { at_doc = Same-refl root }

  Inside-add_attr : (node : ℕ) (name value : String) → Inside root (add_attr node name value)
  unfolding add_attr
  Inside-add_attr node name value = record {
    at_doc = λ d. record {
      result = refl;
      root_node = refl;
      children = omega (
        arith,
        children_of-append root d.doc.ops (append_attribute node (c_str name) (c_str value) ∷ []),
      );
      nodes = omega arith;
    };
  }

  Inside-add_element :
      (node : ℕ) (name value : String) → node ≢ root → Inside root (add_element node name value)
  unfolding add_element
  Inside-add_element node name value differ = record {
    at_doc = λ d. record {
      result = refl;
      root_node = refl;
      children = ground (
        arith,
        children_of-append root d.doc.ops (append_node node (c_str name) (c_str value) ∷ []),
      );
      nodes = omega arith;
    };
  }

ruleset inside_rules =
    (Inside-pure, Inside-bind, Inside-at, Inside-cds_uri, Inside-add_attr, Inside-add_element)

module _ {root : ℕ} (values : StdMap String) (node : ℕ) (differ : node ≢ root) where
  Inside-optional_element :
      (key name : String) → Inside root (optional_element values node key name)
  unfolding optional_element
  Inside-optional_element key name = elim (Option-cases (find key values)) [
    | inl e ↦ rw (e, optional_element) (search inside_rules)
    | inr (v, e) ↦ rw (e, optional_element) (search inside_rules)
  ]

  Inside-write_title : (type : NodeType) → Inside root (write_title type node values)
  unfolding write_title
  Inside-write_title episode = search inside_rules depth 10
  Inside-write_title _ = search inside_rules depth 10

  Inside-write_details : Inside root (write_details node values)
  unfolding write_details
  Inside-write_details = search (inside_rules, Inside-optional_element) depth 12

  Inside-write_thumb : Inside root (write_thumb node values)
  unfolding write_thumb
  Inside-write_thumb = elim (Option-cases (find Param.thumb values)) [
    | inl e ↦ rw (e, write_thumb) (search inside_rules)
    | inr (v, e) ↦ rw (e, write_thumb) (search inside_rules depth 8)
  ]

module _ {root : ℕ} (values : StdMap String) (res : ℕ) where
  Inside-optional_attr : (key name : String) → Inside root (optional_attr values res key name)
  unfolding optional_attr
  Inside-optional_attr key name = elim (Option-cases (find key values)) [
    | inl e ↦ rw (e, optional_attr) (search inside_rules)
    | inr (v, e) ↦ rw (e, optional_attr) (search inside_rules)
  ]

  Inside-write_resolution : Inside root (write_resolution values res)
  unfolding write_resolution
  Inside-write_resolution = elim (Option-cases (find "width" values)) [
    | inl e ↦ rw (e, write_resolution) (search inside_rules)
    | inr (w, e) ↦ elim (Option-cases (find "height" values)) [
      | inl f ↦ rw (e, write_resolution, f) (search inside_rules)
      | inr (h, f) ↦ rw (e, write_resolution, f) (search inside_rules)
    ]
  ]

ruleset res_rules = (inside_rules, Inside-optional_attr, Inside-write_resolution)

module _ {root : ℕ} (values : StdMap String) (node : ℕ) (differ : node ≢ root) where
  Inside-open_res : (key : String) → Inside root (open_res key node values)
  unfolding open_res
  Inside-open_res key = search res_rules depth 16

  Inside-write_res : (type : NodeType) (key : String) → Inside root (write_res type key node values)
  unfolding write_res
  Inside-write_res folder key = search res_rules depth 30
  Inside-write_res _ key = search (res_rules, Inside-open_res) depth 12

module _ (r : Redis) (db : r.Db) {root : ℕ} (values : StdMap String) (node : ℕ)
    (differ : node ≢ root) where
  Inside-write_art : (type : NodeType) → Inside root (write_art r db type node values)
  unfolding write_art
  Inside-write_art audio = search inside_rules depth 8
  Inside-write_art _ = Inside-write_thumb values node differ

  pub Inside-write_body :
      (type : NodeType) (key : String) → Inside root (write_body r db type key node values)
  unfolding write_body
  Inside-write_body type key =
      search
        (inside_rules, Inside-write_title, Inside-write_details, Inside-write_art, Inside-write_res)
        depth 20
