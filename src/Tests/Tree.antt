-- ===== src/Tests/Tree.antt =====
-- Changes of the tree of the data store at concrete inputs.
use upnp.Prelude.{
  String, Bool, ◌≡◌, ◌↔◌, ◌⊎◌, inl, inr, refl, true, false, ◌||◌, ◌&&◌, not, eq_iff, eq_refl, [],
  ◌∷◌, arith,
}
use upnp.Datastore.NodeType.{album}
use upnp.Datastore.Data.Tree.{
  Members, Same, adds_child, adds_node, adds_file, removes_file, changes, all_changed,
}
use upnp.Datastore.Data.Tree.Refines.{view, changes-refine}
use upnp.Tests.Toy.{toy, empty_store, hit}

added_iff :
    (key member k m : String) (before : Bool)
    → ((hit key member k m || before) ≡ true) ↔ ((before ≡ true) ⊎ ((k ≡ key) × (m ≡ member)))
added_iff key member k m true = (λ h. inl refl, λ h. ground arith)
added_iff key member k m false = (
  λ h. inr (ground (arith, eq_iff k key), ground (arith, eq_iff m member)),
  λ h. elim h [
    | inl before ↦ cc
    | inr (e, e') ↦ rw (e, e') (ground (arith, eq_refl key, eq_refl member))
  ],
)

removed_iff :
    (key member k m : String) (before : Bool)
    → ((not (hit key member k m) && before) ≡ true)
      ↔ ((before ≡ true) × (¬ ((k ≡ key) × (m ≡ member))))
removed_iff key member k m true = (
  λ h. (refl, λ (e, e'). ground (arith, eq_iff k key, eq_iff m member, e, e', h)),
  λ (b, n). ground (arith, eq_iff k key, eq_iff m member, n),
)
removed_iff key member k m false = (λ h. absurd (ground arith), λ (b, n). cc)

toy_members : Members toy
toy_members = record {
  In = λ db key member. db.0 key member ≡ true;
  zadd = λ db key score member k m. added_iff key member k m (db.0 k m);
  zrem = λ db key member k m. removed_iff key member k m (db.0 k m);
}

-- A node that is added to an album, to the global list of the albums and to a file list, and removed
-- from the latter.
changes-refine_example :
    Same
      (view toy toy_members
        (λ s. 7)
        (changes toy
          (λ s. 7)
          (adds_child "root" "k" 1
            ∷ adds_node album "k" 2
            ∷ adds_file "k" album "f" 3
            ∷ removes_file "k" album "f"
            ∷ [])
          empty_store))
      (all_changed
        (λ s. 7)
        (adds_child "root" "k" 1
          ∷ adds_node album "k" 2
          ∷ adds_file "k" album "f" 3
          ∷ removes_file "k" album "f"
          ∷ [])
        (view toy toy_members (λ s. 7) empty_store))
changes-refine_example =
    changes-refine toy toy_members (λ s. 7)
      (adds_child "root" "k" 1
        ∷ adds_node album "k" 2
        ∷ adds_file "k" album "f" 3
        ∷ removes_file "k" album "f"
        ∷ [])
      empty_store
