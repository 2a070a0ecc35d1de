-- ===== src/Datastore/Data/Window.antt =====
-- Which part of a list `children` and `files` ask for. Redis documents LRANGE and ZRANGE: the
-- elements from one index to another, both included, a negative index counting from the end.
use upnp.Prelude.{
  ℕ, suc, ◌+◌, ◌-◌, ◌<◌, String, ◌≡◌, ◌≢◌, refl, ap, ◌∙◌, some, List, [], ◌∷◌, eq_iff, arith,
  length, take, drop, ok,
}
use upnp.Prelude.Number.{ℤ, pos, negsuc, to_string, int_add, int_limit}
use upnp.Datastore.NodeType.{NodeType}
use upnp.Datastore.Name
use upnp.Datastore.Redis.{Redis}
use upnp.Datastore.Keys.{make_key, make_key_list, make_key_types}
use upnp.Datastore.Data.{range_end, children_command, children, files}

abbrev start_at : ℕ → ℤ → ℕ
start_at n (pos i) = i
start_at n (negsuc k) = n - suc k

-- The position behind the last index.
abbrev stop_after : ℕ → ℤ → ℕ
stop_after n (pos i) = suc i
stop_after n (negsuc k) = n - k

abbrev pub range {ℓ} : {A : Type ℓ} → List A → ℤ → ℤ → List A
range xs a b =
    take (stop_after (length xs) b - start_at (length xs) a) (drop (start_at (length xs) a) xs)

-- The command `name` at `key` answers with the range of the list `xs` that it is asked for.
abbrev pub Answers : (r : Redis) → r.Db → String → String → List String → Type 0
Answers r db name key xs =
    (a b : ℤ) → r.sync_list db (name ∷ key ∷ to_string a ∷ to_string b ∷ []) ≡ some (range xs a b)

int_add-pos : (a b : ℕ) → a + b < int_limit → int_add (pos a) (pos b) ≡ ok (pos (a + b))
unfolding int_add
int_add-pos a b h = ground arith

int_add_minus_one : (n m : ℕ) → n ≡ suc m → m < int_limit → int_add (pos n) (negsuc 0) ≡ ok (pos m)
unfolding int_add
int_add_minus_one n m e h = ground arith

range_end-pos :
    (i c : ℕ)
    → i + suc c < int_limit
    → range_end (pos i) (pos (suc c)) ≡ ok (to_string (pos (i + c)))
unfolding range_end
range_end-pos i c h =
    rw (int_add-pos i (suc c) h, int_add_minus_one (i + suc c) (i + c) (omega arith) (omega arith))

range_end_all :
    (i : ℕ) → suc i < int_limit → range_end (pos (suc (suc i))) (negsuc 0) ≡ ok (to_string (pos i))
unfolding range_end
range_end_all i h =
    rw (
      int_add_minus_one (suc (suc i)) (suc i) refl h,
      int_add_minus_one (suc i) i refl (omega arith),
    )

range_page {ℓ} :
    {A : Type ℓ} (xs : List A) (i c : ℕ) → range xs (pos i) (pos (i + c)) ≡ take (suc c) (drop i xs)
range_page xs i c = let e : suc (i + c) - i ≡ suc c = omega arith in ap (λ n. take n (drop i xs)) e

range_all {ℓ} : {A : Type ℓ} (xs : List A) → range xs (pos 0) (negsuc 1) ≡ take (length xs - 1) xs
range_all xs = let e : length xs - 1 - 0 ≡ length xs - 1 = omega arith in ap (λ n. take n xs) e

range_empty {ℓ} : {A : Type ℓ} (xs : List A) (i : ℕ) → range xs (pos (suc (suc i))) (pos i) ≡ []
range_empty xs i =
    let e : suc i - suc (suc i) ≡ 0 = omega arith in ap (λ n. take n (drop (suc (suc i)) xs)) e

abbrev pub sorted_key : String → String → String → String
sorted_key key sort order = make_key (make_key_list key) ("sort" ∷ sort ∷ order ∷ [])

children_command-sorted :
    (key : String) (index : ℤ) (stop sort order : String)
    → sort ≢ "default"
    → children_command key index stop sort order ""
      ≡ Name.lrange ∷ sorted_key key sort order ∷ to_string index ∷ stop ∷ []
unfolding children_command
children_command-sorted key index stop sort order ne = ground (arith, eq_iff sort "default")

module _ (r : Redis) (db : r.Db) (key : String) (xs : List String) where
  children-range :
      (sort order : String) (index count stop : ℤ)
      → sort ≢ "default"
      → Answers r db Name.lrange (sorted_key key sort order) xs
      → range_end index count ≡ ok (to_string stop)
      → children r db key index count sort order "" ≡ ok (range xs index stop)
  unfolding children
  children-range sort order index count stop ne answers e =
      rw (e, children_command-sorted key index (to_string stop) sort order ne, answers index stop)

  files-range :
      (type : NodeType) (index count stop : ℤ)
      → Answers r db Name.zrange (make_key_types key type) xs
      → range_end index count ≡ ok (to_string stop)
      → files r db key type index count ≡ ok (range xs index stop)
  unfolding files
  files-range type index count stop answers e = rw (e, answers index stop)

  -- For a sort order other than the default, where Redis answers LRANGE with the range asked for
  -- and the index plus the count fits an int, children gives the count keys of the sorted list
  -- from the index on, as far as there are any, in the list's order.
  pub children_page :
      (sort order : String) (i c : ℕ)
      → sort ≢ "default"
      → i + suc c < int_limit
      → Answers r db Name.lrange (sorted_key key sort order) xs
      → children r db key (pos i) (pos (suc c)) sort order "" ≡ ok (take (suc c) (drop i xs))
  children_page sort order i c ne fits answers =
      children-range sort order (pos i) (pos (suc c)) (pos (i + c)) ne answers
        (range_end-pos i c fits)
      ∙ ap ok (range_page xs i c)

  -- Where Redis answers ZRANGE with the range asked for and the index plus the count fits an int,
  -- files gives the count files of a type from the index on, as far as there are any.
  pub files_page :
      (type : NodeType) (i c : ℕ)
      → i + suc c < int_limit
      → Answers r db Name.zrange (make_key_types key type) xs
      → files r db key type (pos i) (pos (suc c)) ≡ ok (take (suc c) (drop i xs))
  files_page type i c fits answers =
      files-range type (pos i) (pos (suc c)) (pos (i + c)) answers (range_end-pos i c fits)
      ∙ ap ok (range_page xs i c)

  -- For a sort order other than the default, where Redis answers LRANGE with the range asked for,
  -- a count of -1 with index 0, which a browse request for all children passes, gives all children
  -- but the last one.
  pub children_all :
      (sort order : String)
      → sort ≢ "default"
      → Answers r db Name.lrange (sorted_key key sort order) xs
      → children r db key (pos 0) (negsuc 0) sort order "" ≡ ok (take (length xs - 1) xs)
  children_all sort order ne answers =
      children-range sort order (pos 0) (negsuc 0) (negsuc 1) ne answers
        (unfold range_end int_add in refl)
      ∙ ap ok (range_all xs)

  pub files_all :
      (type : NodeType)
      → Answers r db Name.zrange (make_key_types key type) xs
      → files r db key type (pos 0) (negsuc 0) ≡ ok (take (length xs - 1) xs)
  files_all type answers =
      files-range type (pos 0) (negsuc 0) (negsuc 1) answers (unfold range_end int_add in refl)
      ∙ ap ok (range_all xs)

  -- For a sort order other than the default, where Redis answers LRANGE with the range asked for,
  -- a count of -1 with an index from 2 to the greatest int gives no child.
  children_all_from :
      (sort order : String) (i : ℕ)
      → sort ≢ "default"
      → suc i < int_limit
      → Answers r db Name.lrange (sorted_key key sort order) xs
      → children r db key (pos (suc (suc i))) (negsuc 0) sort order "" ≡ ok []
  children_all_from sort order i ne fits answers =
      children-range sort order (pos (suc (suc i))) (negsuc 0) (pos i) ne answers
        (range_end_all i fits)
      ∙ ap ok (range_empty xs i)
