-- ===== src/Datastore/Data/Node.antt =====
-- Reading a node back: what `to_map` makes of the words of the reply.
use upnp.Prelude.{
  ℕ, zero, suc, ◌+◌, ◌*◌, ◌/◌, ◌%◌, ◌<◌, String, ◌≡◌, refl, sym, ap, ◌∙◌, true, Option, some, List,
  [], ◌∷◌, ◌++◌, ◌↔◌, inl, inr, Bool-cases, arith, nat_eq, length, length-append, get_elem?, ok,
}
use mathlib.Core.List.{append_assoc}
use upnp.Prelude.StdMap
use upnp.Prelude.StdMap.{StdMap, find, IsSorted}
use upnp.Prelude.StdMap.Assigned.{
  Distinct, put_each, find-put_each, or_else, or_else-none, IsSorted-Distinct,
}
use upnp.Datastore.Name
use upnp.Datastore.Keys.{make_key_node}
use upnp.Datastore.Redis.{Redis}
use upnp.Datastore.Data.{at, to_map_loop, to_map, fields, save, node}

get_elem?-append :
    (xs : List String) (x : String) (ys : List String)
    → get_elem? (xs ++ x ∷ ys) (length xs) ≡ some x
get_elem?-append [] x ys = refl
get_elem?-append (y ∷ xs) x ys = get_elem?-append xs x ys

at-append :
    (xs : List String) (x : String) (ys : List String) → at (xs ++ x ∷ ys) (length xs) ≡ ok x
unfolding at
at-append xs x ys = rw (get_elem?-append xs x ys, at)

at-append_next :
    (xs : List String) (w x : String) (ys : List String)
    → at (xs ++ w ∷ x ∷ ys) (length xs + 1) ≡ ok x
at-append_next xs w x ys =
    let next = at-append (xs ++ w ∷ []) x ys in rw (append_assoc, length-append) at next

length-fields : (m : StdMap String) → length (fields m) ≡ 2 * length m
unfolding fields
length-fields [] = refl
length-fields ((k, v) ∷ m) = omega (arith, length-fields m)

-- The loop from the words behind `read` on.
to_map_loop-fields :
    (read : List String) (so_far left : StdMap String)
    → to_map_loop (length left) (length read) so_far (read ++ fields left)
      ≡ ok (put_each left so_far)
unfolding to_map_loop fields
to_map_loop-fields read so_far [] = refl
to_map_loop-fields read so_far ((k, v) ∷ left) =
    let rest = to_map_loop-fields (read ++ k ∷ v ∷ []) (StdMap.put k v so_far) left in
    rw (at-append read k (v ∷ fields left), at-append_next read k v (fields left))
      (rw (append_assoc, length-append) at rest)

get_elem?-lt : (xs : List String) (i : ℕ) → i < length xs → (x : String) × (get_elem? xs i ≡ some x)
get_elem?-lt [] i h = absurd (omega arith)
get_elem?-lt (x ∷ xs) zero h = (x, refl)
get_elem?-lt (x ∷ xs) (suc i) h = get_elem?-lt xs i (omega arith)

at-lt : (xs : List String) (i : ℕ) → i < length xs → (x : String) × (at xs i ≡ ok x)
unfolding at
at-lt xs i h = let (x, e) = get_elem?-lt xs i h in (x, rw (e, at))

to_map_loop-ok :
    (rounds i : ℕ) (m : StdMap String) (words : List String)
    → rounds * 2 + i ≡ length words
    → (m' : StdMap String) × (to_map_loop rounds i m words ≡ ok m')
unfolding to_map_loop
to_map_loop-ok zero i m words h = (m, refl)
to_map_loop-ok (suc rounds) i m words h =
    let (k, e) = at-lt words i (omega (arith, h)) in
    let (v, f) = at-lt words (i + 1) (omega (arith, h)) in
    let (m', g) = to_map_loop-ok rounds (i + 2) (StdMap.put k v m) words (omega (arith, h)) in
    (m', rw (e, f) g)

-- A list of words becomes a map exactly if their number is even: the loop never reads past the
-- end.
pub to_map-ok_iff :
    (words : List String)
    → ((m : StdMap String) × (to_map words ≡ ok m)) ↔ (nat_eq (length words % 2) 0 ≡ true)
unfolding to_map
to_map-ok_iff words = (
  λ (m, e). elim (Bool-cases (nat_eq (length words % 2) 0)) [
    | inl even ↦ even
    | inr odd ↦ cc (rw odd at e)
  ],
  λ even.
      let twice : length words / 2 * 2 + 0 ≡ length words = ground (arith, even) in
      let (m, e) = to_map_loop-ok (length words / 2) 0 [] words twice in (m, rw even e),
)

-- `to_map` assigns the fields and values of a list one after another.
to_map-fields : (m : StdMap String) → to_map (fields m) ≡ ok (put_each m [])
unfolding to_map
to_map-fields m =
    let even : nat_eq (length (fields m) % 2) 0 ≡ true = ground (arith, length-fields m) in
    let half : length (fields m) / 2 ≡ length m = omega (arith, length-fields m) in
    rw (even, half) (to_map_loop-fields [] [] m)

-- The words of a list of fields with their values.
abbrev pub words_of : List (String × String) → List String
words_of [] = []
words_of ((k, v) ∷ ps) = k ∷ v ∷ words_of ps

fields-words_of : (m : StdMap String) → fields m ≡ words_of m
unfolding fields
fields-words_of [] = refl
fields-words_of ((k, v) ∷ m) = ap (λ ws. k ∷ v ∷ ws) (fields-words_of m)

-- What Redis documents of hashes: HMSET sets the fields that it names and keeps the others, and HGETALL
-- replies with each field once and its value, in any order.
pub record Hashes (r : Redis) : Type 0 where
  pub field : r.Db → (key name : String) → Option String
  pub hmset :
      (db : r.Db) (key : String) (ps : List (String × String)) (name : String)
      → Distinct ps
      → field (r.command db (Name.hmset ∷ key ∷ words_of ps)) key name
        ≡ or_else (find name ps) (field db key name)
  pub hgetall :
      (db : r.Db) (key : String)
      → (ps : List (String × String)) × Distinct ps
        × (r.sync_list db (Name.hgetall ∷ key ∷ []) ≡ some (words_of ps))
        × ((name : String) → find name ps ≡ field db key name)

module _ (r : Redis) (hashes : Hashes r) where
  -- A node is read with the fields of its hash.
  node-field :
      (db : r.Db) (key : String)
      → (m : StdMap String) × (node r db key ≡ ok m)
        × ((name : String) → find name m ≡ hashes.field db (make_key_node key) name)
  unfolding node find
  node-field db key =
      let (ps, distinct, reply, holds) = hashes.hgetall db (make_key_node key) in
      (
        put_each ps [],
        rw (node, reply) (ap to_map (sym (fields-words_of ps)) ∙ to_map-fields ps),
        λ name. find-put_each name ps [] distinct ∙ or_else-none (find name ps) ∙ holds name,
      )

  -- Where Redis keeps hashes as it documents, a node is read by data::node before and after
  -- data::save has saved fields of it, which are those of a std::map; after it, each saved field
  -- is found with its value, and each other field with the value that it had before, if any.
  pub node-save :
      (db : r.Db) (key : String) (m : StdMap String)
      → IsSorted m
      → (before after : StdMap String) × (node r db key ≡ ok before)
        × (node r (save r db key m) key ≡ ok after)
        × ((name : String) → find name after ≡ or_else (find name m) (find name before))
  unfolding save
  node-save db key m sorted =
      let (before, read, holds) = node-field db key in
      let (after, read', holds') = node-field (save r db key m) key in
      (
        before,
        after,
        read,
        read',
        λ name.
            holds' name
            ∙ ap
                (λ ws.
                  hashes.field (r.command db (Name.hmset ∷ make_key_node key ∷ ws))
                    (make_key_node key) name)
                (fields-words_of m)
            ∙ hashes.hmset db (make_key_node key) m name (IsSorted-Distinct m sorted)
            ∙ ap (or_else (find name m)) (sym (holds name)),
      )
