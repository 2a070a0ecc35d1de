-- ===== src/Server/Browse/Page.antt =====
-- How many objects a browse response lists.
use upnp.Prelude.{
  ltb, Bool-cases, ℕ, suc, ◌+◌, ◌≤◌, String, ◌≡◌, subst, List, [], ◌∷◌, length, Option-cases, inl,
  inr, Result, ok, err, arith,
}
use upnp.Prelude.Exec
use upnp.Prelude.Number.{int_limit, ℤ}
use upnp.Prelude.StdMap.{StdMap, find}
use upnp.Config.{Config}
use upnp.Datastore.Param
use upnp.Datastore.NodeType
use upnp.Datastore.NodeType.{NodeType}
use upnp.Datastore.Redis.{Redis}
use upnp.Datastore.Data
use upnp.Didl
use upnp.Didl.{Didl, new_didl, add_element}
use upnp.Didl.Write.{write, write_item, write_body, root_of, done}
use upnp.Didl.Write.Inside.{Inside-write_body}
use upnp.Didl.Write.Count.{with_item, IsCounted, Ends, IsCounted-new_didl, write-Ends}
use upnp.Xml.{element}
use upnp.Server.Browse.{write_each, browse_keys, browse_children, outcome}

result-done :
    (result : Result (Unit {0})) (d : Didl)
    → (Exec.continue result d (λ _. done)).1.result ≤ suc d.result
unfolding done
result-done (ok _) d = elim (Bool-cases (ltb (suc d.result) int_limit)) [
  | inl small ↦ rw small (omega arith)
  | inr large ↦ rw large (omega arith)
]
result-done (err e) d = omega arith

module _ (r : Redis) (db : r.Db) where
  result-write_item :
      (type : NodeType) (key : String) (values : StdMap String) (d : Didl)
      → IsCounted d
      → (write_item r db type key values d).1.result ≤ suc d.result
  unfolding write_item root_of add_element element
  result-write_item type key values d h =
      let node : ℕ = suc d.doc.nodes in
      let (result, d') = write_body r db type key node values (with_item type d) in
      let below =
        Inside-write_body r db {root = d.root_node} values node (omega (arith, h.placed)) type
          key in
      let same = below.at_doc (with_item type d) in
      omega (arith, result-done result d', same.result)

  result-write :
      (key : String) (values : StdMap String) (d : Didl)
      → IsCounted d
      → (write r db key values d).1.result ≤ suc d.result
  unfolding write
  result-write key values d h = elim (Option-cases (find Param.cls values)) [
    | inl e ↦ rw (e, write) (omega arith)
    | inr (cls, e) ↦ rw (e, write) (result-write_item (NodeType.parse cls) key values d h)
  ]

  result-continue :
      (keys : List String) (result : Result (Unit {0})) (d : Didl) (n : ℕ)
      → Ends result d
      → d.result ≤ suc n
      → ((d : Didl) → IsCounted d → (write_each r db keys d).1.result ≤ length keys + d.result)
      → (Exec.continue result d (λ _. write_each r db keys)).1.result ≤ suc (length keys) + n
  result-continue keys (ok _) d n h le rest = omega (arith, rest d h, le)
  result-continue keys (err e) d n h le rest = omega (arith, le)

  result-node :
      (key : String) (keys : List String) (values : Result (StdMap String)) (d : Didl)
      → IsCounted d
      → ((d : Didl) → IsCounted d → (write_each r db keys d).1.result ≤ length keys + d.result)
      → (Exec.continue values d
          (λ vs. Exec.◌>>=◌ (write r db key vs) (λ _. write_each r db keys))).1.result
        ≤ suc (length keys) + d.result
  result-node key keys (ok vs) d h rest =
      result-continue keys (write r db key vs d).0 (write r db key vs d).1 d.result
        (write-Ends r db key vs d h) (result-write key vs d h) rest
  result-node key keys (err e) d h rest = omega arith

  result-write_each :
      (keys : List String) (d : Didl)
      → IsCounted d
      → (write_each r db keys d).1.result ≤ length keys + d.result
  unfolding write_each
  result-write_each [] d h = omega arith
  result-write_each (key ∷ keys) d h =
      result-node key keys (Data.node r db key) d h (result-write_each keys)

  result-outcome :
      (o : Result (Unit {0}) × Didl) (d : Didl) (n : ℕ)
      → o.1.result ≤ n
      → outcome r db o ≡ ok d
      → d.result ≤ n
  result-outcome (ok _, d') d n le e = let same : d' ≡ d = cc in subst (λ d. d.result ≤ n) same le
  result-outcome (err f, d') d n le e = cc

  -- Where the data store gives keys for a browse request and no call throws, the number returned
  -- is at most the number of these keys.
  pub browse_children-le-keys :
      (config : Config) (key : String) (index count : ℤ) (keys : List String) (d : Didl)
      → browse_keys r db key index count ≡ ok keys
      → browse_children r db config key index count ≡ ok d
      → Didl.count d ≤ length keys
  unfolding browse_children Didl.count new_didl
  browse_children-le-keys config key index count keys d found h =
      let le = result-write_each keys (new_didl config) (IsCounted-new_didl config) in
      omega (
        arith,
        result-outcome (write_each r db keys (new_didl config)) d (length keys + 0) le
            (rw found at h),
      )
