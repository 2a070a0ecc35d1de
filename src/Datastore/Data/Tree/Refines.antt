-- ===== src/Datastore/Data/Tree/Refines.antt =====
-- The functions of the data store do what the tree says.
use upnp.Prelude.{ℕ, String, ◌≡◌, ◌≢◌, ◌↔◌, ◌⊎◌, inl, inr, refl, sym, ap, List, [], ◌∷◌}
use upnp.Datastore.Name
use upnp.Datastore.NodeType.{NodeType, str}
use upnp.Datastore.Redis.{Redis}
use upnp.Datastore.Keys.{hash, make_key_list, make_key_list_type, make_key_types}
use upnp.Datastore.Keys.Laws.{make_key_list-injective}
use upnp.Datastore.Keys.Types.{make_key_types-ne-list, make_key_types-injective}
use upnp.Datastore.Data.Tree.{
  Members, Tree, Same, Change, adds_child, removes_child, adds_node, removes_node, adds_file,
  removes_file, change, changes, changed, all_changed,
}

⊎_congr : {A B C D : Type 0} → A ↔ B → C ↔ D → (A ⊎ C) ↔ (B ⊎ D)
⊎_congr (f, g) (f', g') = (
  λ s. elim s [ inl a ↦ inl (f a) | inr c ↦ inr (f' c) ],
  λ s. elim s [ inl b ↦ inl (g b) | inr d ↦ inr (g' d) ],
)

without_congr : {A B C D : Type 0} → A ↔ B → C ↔ D → (A × (¬ C)) ↔ (B × (¬ D))
without_congr (f, g) (f', g') = (λ (a, n). (f a, λ d. n (g' d)), λ (b, n). (g b, λ c. n (f' c)))

same_iff : {A : Type 0} → A ↔ A
same_iff = (λ a. a, λ a. a)

then_iff : {A B C : Type 0} → A ↔ B → B ↔ C → A ↔ C
then_iff (f, g) (f', g') = (λ a. f' (f a), λ c. g (g' c))

left_iff : {A B M : Type 0} → A ↔ B → (A × M) ↔ (B × M)
left_iff (f, g) = (λ (a, m). (f a, m), λ (b, m). (g b, m))

list_iff : (a p : String) → (make_key_list a ≡ make_key_list p) ↔ (a ≡ p)
list_iff a p = (make_key_list-injective a p, λ e. ap make_key_list e)

types_iff :
    (a p : String) (u t : NodeType)
    → (make_key_types a u ≡ make_key_types p t) ↔ ((a ≡ p) × (u ≡ t))
types_iff a p u t = (make_key_types-injective a p u t, λ (e, e'). cc)

type_list : (t : NodeType) → make_key_list_type t ≡ make_key_list (str t)
unfolding make_key_list_type make_key_list
type_list t = refl

type_list_iff : (a : String) (t : NodeType) → (make_key_list a ≡ make_key_list_type t) ↔ (a ≡ str t)
type_list_iff a t = rw (type_list t) (list_iff a (str t))

types_ne_type : (a : String) (u t : NodeType) → make_key_types a u ≢ make_key_list_type t
types_ne_type a u t = rw (type_list t) (make_key_types-ne-list a (str t) u)

module _ (r : Redis) (members : Members r) (boost_hash : String → ℕ) where
  open members use {In, zadd, zrem}

  -- The tree that a database holds.
  abbrev pub view : r.Db → Tree
  view db = record {
    child = λ p k. In db (make_key_list p) k;
    file = λ p t k. In db (make_key_types p t) k;
  }

  add_same :
      (db : r.Db) (key score member k m : String) {P : Type 0}
      → (k ≡ key) ↔ P
      → In (r.command db (Name.zadd ∷ key ∷ score ∷ member ∷ [])) k m
        ↔ (In db k m ⊎ (P × (m ≡ member)))
  add_same db key score member k m h =
      then_iff (zadd db key score member k m) (⊎_congr same_iff (left_iff h))

  add_other :
      (db : r.Db) (key score member k m : String)
      → k ≢ key
      → In (r.command db (Name.zadd ∷ key ∷ score ∷ member ∷ [])) k m ↔ In db k m
  add_other db key score member k m ne =
      then_iff (zadd db key score member k m)
        (λ s. elim s [ inl before ↦ before | inr (e, _) ↦ absurd (ne e) ], λ before. inl before)

  remove_same :
      (db : r.Db) (key member k m : String) {P : Type 0}
      → (k ≡ key) ↔ P
      → In (r.command db (Name.zrem ∷ key ∷ member ∷ [])) k m ↔ (In db k m × (¬ (P × (m ≡ member))))
  remove_same db key member k m h =
      then_iff (zrem db key member k m) (without_congr same_iff (left_iff h))

  remove_other :
      (db : r.Db) (key member k m : String)
      → k ≢ key
      → In (r.command db (Name.zrem ∷ key ∷ member ∷ [])) k m ↔ In db k m
  remove_other db key member k m ne =
      then_iff (zrem db key member k m) (λ (before, _). before, λ before. (before, λ (e, _). ne e))

  list_ne : (a p : String) (t : NodeType) → make_key_list a ≢ make_key_types p t
  list_ne a p t h = make_key_types-ne-list p a t (sym h)

  change-Same :
      (c : Change) (db : r.Db)
      → Same (view (change r boost_hash c db)) (changed boost_hash c (view db))
  unfolding change
  change-Same (adds_child p k score) db = (
    λ a b. add_same db _ _ k _ b (list_iff a p),
    λ a u b. add_other db _ _ k _ b (make_key_types-ne-list a p u),
  )
  change-Same (removes_child p k) db = (
    λ a b. remove_same db _ (hash boost_hash k) _ b (list_iff a p),
    λ a u b. remove_other db _ (hash boost_hash k) _ b (make_key_types-ne-list a p u),
  )
  change-Same (adds_node t k score) db = (
    λ a b. add_same db _ _ k _ b (type_list_iff a t),
    λ a u b. add_other db _ _ k _ b (types_ne_type a u t),
  )
  change-Same (removes_node t k) db = (
    λ a b. remove_same db _ k _ b (type_list_iff a t),
    λ a u b. remove_other db _ k _ b (types_ne_type a u t),
  )
  change-Same (adds_file p t k score) db = (
    λ a b. add_other db _ _ k _ b (list_ne a p t),
    λ a u b. add_same db _ _ k _ b (types_iff a p u t),
  )
  change-Same (removes_file p t k) db = (
    λ a b. remove_other db _ k _ b (list_ne a p t),
    λ a u b. remove_same db _ k _ b (types_iff a p u t),
  )

changed_congr :
    (boost_hash : String → ℕ) (c : Change) {s t : Tree}
    → Same s t
    → Same (changed boost_hash c s) (changed boost_hash c t)
changed_congr boost_hash (adds_child p k score) (child, file) =
    (λ a b. ⊎_congr (child a b) same_iff, file)
changed_congr boost_hash (removes_child p k) (child, file) =
    (λ a b. without_congr (child a b) same_iff, file)
changed_congr boost_hash (adds_node t k score) (child, file) =
    (λ a b. ⊎_congr (child a b) same_iff, file)
changed_congr boost_hash (removes_node t k) (child, file) =
    (λ a b. without_congr (child a b) same_iff, file)
changed_congr boost_hash (adds_file p t k score) (child, file) =
    (child, λ a u b. ⊎_congr (file a u b) same_iff)
changed_congr boost_hash (removes_file p t k) (child, file) =
    (child, λ a u b. without_congr (file a u b) same_iff)

all_changed_congr :
    (boost_hash : String → ℕ) (cs : List Change) {s t : Tree}
    → Same s t
    → Same (all_changed boost_hash cs s) (all_changed boost_hash cs t)
all_changed_congr boost_hash [] same = same
all_changed_congr boost_hash (c ∷ cs) same =
    all_changed_congr boost_hash cs (changed_congr boost_hash c same)

Same-trans : {a b c : Tree} → Same a b → Same b c → Same a c
Same-trans (child, file) (child', file') =
    (λ p k. then_iff (child p k) (child' p k), λ p t k. then_iff (file p t k) (file' p t k))

module _ (r : Redis) (members : Members r) (boost_hash : String → ℕ) where
  -- Where Redis adds and removes members as it documents, any sequence of calls of add_types,
  -- rem_types, add_nodes and rem_nodes, and of their overloads with a parent, changes the children
  -- and files in the data store as those of a tree: one entry comes in or goes out and no other
  -- list changes; the nodes of a type are the children of its name, and rem_types takes out the
  -- hash of its key.
  pub changes-refine :
      (cs : List Change) (db : r.Db)
      → Same
          (view r members boost_hash (changes r boost_hash cs db))
          (all_changed boost_hash cs (view r members boost_hash db))
  unfolding changes
  changes-refine [] db = (λ p k. same_iff, λ p t k. same_iff)
  changes-refine (c ∷ cs) db =
      Same-trans (changes-refine cs (change r boost_hash c db))
        (all_changed_congr boost_hash cs (change-Same r members boost_hash c db))
