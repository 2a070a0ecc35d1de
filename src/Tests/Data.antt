-- ===== src/Tests/Data.antt =====
-- The data store at concrete inputs.
use upnp.Prelude.{
  ◌≡◌, ◌↔◌, ◌%◌, nat_eq, length, ◌≢◌, refl, ap, true, false, List, [], ◌∷◌, ◌++◌, Option, none,
  some, ok, arith, ◌==◌, eq_iff, String, if◌then◌else◌,
}
use upnp.Prelude.StdMap.{StdMap, find, put, IsSorted, put-IsSorted}
use upnp.Prelude.StdMap.Assigned.{put_each, find-put_each, or_else, IsSorted-Distinct}
use upnp.Datastore.Redis.{Redis}
use upnp.Prelude.Number.{pos, of_ℕ}
use upnp.Datastore.Name
use upnp.Datastore.Keys.{hash, make_key_list}
use upnp.Datastore.Data.{to_map, save, node, get, add_types, rem_types}
use upnp.Datastore.Data.Node.{words_of, Hashes, node-save, to_map-ok_iff}
use upnp.Datastore.Data.Window.{sorted_key}
use upnp.Server.Browse.{browse_keys, browse_count}
use upnp.Server.Browse.Paging.{Lists, pages, pages_complete, browse_keys-all}
use upnp.Datastore.NodeType.{parse}
use upnp.Datastore.Data.Relations.{SortedSets, rem_types-add_types}
use upnp.Tests.Toy.{toy, empty_store, three_keys, toy_sets, toy-Answers}

seven_ne : ◌≢◌ {A = String} "7" "k"
seven_ne h = let same : false ≡ true = (eq_iff "7" "k").1 h in cc

-- A Redis that keeps the assignments to each hash.
abbrev Assignments : Type 0
Assignments = List (String × String)

abbrev pairs_of : List String → Assignments
pairs_of [] = []
pairs_of (k ∷ []) = []
pairs_of (k ∷ v ∷ ws) = (k, v) ∷ pairs_of ws

pairs_of-words_of : (ps : Assignments) → pairs_of (words_of ps) ≡ ps
pairs_of-words_of [] = refl
pairs_of-words_of ((k, v) ∷ ps) = ap (◌∷◌ (k, v)) (pairs_of-words_of ps)

abbrev hash_command : (String → Assignments) → List String → String → Assignments
hash_command db [] = db
hash_command db (name ∷ []) = db
hash_command db (name ∷ key ∷ ws) = λ k. if k == key then db k ++ pairs_of ws else db k

abbrev hash_list : (String → Assignments) → List String → Option (List String)
hash_list db (name ∷ key ∷ []) = some (words_of (put_each (db key) []))
hash_list db _ = none

abbrev hash_redis : Redis
hash_redis = record {
  Db = String → Assignments;
  command = hash_command;
  sync_string = λ db words. none;
  sync_list = hash_list;
  sync_int = λ db words. none;
  get = λ db key. none;
  set = λ db key value. db;
}

put_each-append : (ps qs m : Assignments) → put_each (ps ++ qs) m ≡ put_each qs (put_each ps m)
put_each-append [] qs m = refl
put_each-append ((k, v) ∷ ps) qs m = put_each-append ps qs (put k v m)

put_each-IsSorted : (ps m : Assignments) → IsSorted m → IsSorted (put_each ps m)
put_each-IsSorted [] m s = s
put_each-IsSorted ((k, v) ∷ ps) m s = put_each-IsSorted ps (put k v m) (put-IsSorted k v m s)

hash_redis-Hashes : Hashes hash_redis
hash_redis-Hashes = record {
  field = λ db key name. find name (put_each (db key) []);
  hmset = λ db key ps name distinct.
      rw ((eq_iff key key).1 refl, pairs_of-words_of ps, put_each-append (db key) ps [])
        (find-put_each name ps (put_each (db key) []) distinct);
  hgetall = λ db key. (
    put_each (db key) [],
    IsSorted-Distinct (put_each (db key) []) (put_each-IsSorted (db key) [] tt),
    refl,
    λ name. refl,
  );
}

abbrev held : String → Assignments
held key = ("par", "root") ∷ ("cls", "folder") ∷ []

node-save_example :
    (before after : Assignments) × (node hash_redis held "k" ≡ ok before)
    × (node hash_redis (save hash_redis held "k" (("cls", "file") ∷ [])) "k" ≡ ok after)
    × ((name : String)
        → find name after ≡ or_else (find name (("cls", "file") ∷ [])) (find name before))
node-save_example = node-save hash_redis hash_redis-Hashes held "k" (("cls", "file") ∷ []) (tt, tt)

abbrev odd_words : List String
odd_words = "cls" ∷ "file" ∷ "par" ∷ []

to_map-ok_iff_example :
    ((m : StdMap String) × (to_map odd_words ≡ ok m)) ↔ (nat_eq (length odd_words % 2) 0 ≡ true)
to_map-ok_iff_example = to_map-ok_iff odd_words

rem_types-add_types_example :
    SortedSets.In toy_sets
      (rem_types toy (λ s. 7) (add_types toy empty_store "root" "k" 1) "root" "k")
      (make_key_list "root")
      "k"
unfolding hash of_ℕ
rem_types-add_types_example =
    rem_types-add_types toy toy_sets empty_store (λ s. 7) "root" "k" 1 seven_ne

toy-Lists : Lists toy empty_store "k" three_keys
unfolding parse get
toy-Lists = toy-Answers Name.lrange (sorted_key "k" "alpha" "asc")

pages_complete_example : pages toy empty_store "k" 2 2 0 ≡ ok ("a" ∷ "b" ∷ "c" ∷ [])
pages_complete_example =
    pages_complete toy empty_store "k" three_keys 2 1 (omega arith) (omega arith) toy-Lists

browse_keys-all_example :
    browse_keys toy empty_store "k" (pos 0) (browse_count (pos 0)) ≡ ok ("a" ∷ "b" ∷ [])
browse_keys-all_example = browse_keys-all toy empty_store "k" three_keys toy-Lists
