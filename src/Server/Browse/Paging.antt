-- ===== src/Server/Browse/Paging.antt =====
-- Which keys the browse action takes for a page, and what a client gets that asks for page after page.
use native.Mathlib.Numerals.{unary_clauses}
use upnp.Prelude.{
  ℕ, zero, suc, ◌+◌, ◌*◌, ◌-◌, ◌≤◌, ◌<◌, String, ◌≡◌, ◌≢◌, refl, sym, ap, ◌∙◌, List, [], ◌∷◌, ◌++◌,
  length, take, drop, Result, ok, ◌>>=◌, arith,
}
use upnp.Prelude.Number.{pos, negsuc, int_limit}
use upnp.Datastore.Param
use upnp.Datastore.Name
use upnp.Datastore.NodeType
use upnp.Datastore.NodeType.{NodeType, album, audio}
use upnp.Datastore.Redis.{Redis}
use upnp.Datastore.Keys.{make_key_types}
use upnp.Datastore.Data
use upnp.Datastore.Data.Window.{
  Answers, sorted_key, children_page, children_all, files_page, files_all,
}
use upnp.Server.Browse.{browse_keys, browse_count}

drop_add {ℓ} : {A : Type ℓ} (i n : ℕ) (xs : List A) → drop (i + n) xs ≡ drop n (drop i xs)
drop_add zero n xs = let e : 0 + n ≡ n = omega arith in rw e refl
drop_add (suc i) zero [] = simp unary_clauses
drop_add (suc i) (suc n) [] = simp unary_clauses
drop_add (suc i) n (x ∷ xs) =
    let e : suc i + n ≡ suc (i + n) = omega arith in rw e (drop_add i n xs)

take_add {ℓ} :
    {A : Type ℓ} (a b : ℕ) (xs : List A) → take (a + b) xs ≡ take a xs ++ take b (drop a xs)
take_add zero b xs = let e : 0 + b ≡ b = omega arith in rw e refl
take_add (suc a) zero [] = simp unary_clauses
take_add (suc a) (suc b) [] = simp unary_clauses
take_add (suc a) b (x ∷ xs) =
    let e : suc a + b ≡ suc (a + b) = omega arith in rw e (ap (λ rest. x ∷ rest) (take_add a b xs))

take_whole {ℓ} : {A : Type ℓ} (n : ℕ) (xs : List A) → length xs ≤ n → take n xs ≡ xs
take_whole zero [] l = refl
take_whole (suc n) [] l = refl
take_whole zero (x ∷ xs) l = absurd (omega arith)
take_whole (suc n) (x ∷ xs) l = ap (λ rest. x ∷ rest) (take_whole n xs (omega arith))

module _ (r : Redis) (db : r.Db) (key : String) where
  -- The keys of `rounds` requests, each for the `size` objects after those of the one before.
  unfoldable pub pages : (rounds size start : ℕ) → Result (List String)
  unfolding browse_keys browse_count
  pages zero size start = ok []
  pages (suc rounds) size start = do
    page ← browse_keys r db key (pos start) (browse_count (pos size))
    rest ← pages rounds size (start + size)
    ok (page ++ rest)

module _ (r : Redis) (db : r.Db) (key : String) (xs : List String) where
  -- Redis answers with the ranges of `xs` that it is asked for: the songs of an album, by their
  -- positions, and the sorted children of any other object.
  abbrev Listed : NodeType → Type 0
  Listed album = Answers r db Name.zrange (make_key_types key audio) xs
  Listed _ = Answers r db Name.lrange (sorted_key key "alpha" "asc") xs

  -- What the object of this key lists.
  abbrev pub Lists : Type 0
  Lists = Listed (NodeType.parse (Data.get r db key Param.cls))

  alpha : ◌≢◌ {A = String} "alpha" "default"
  alpha h = cc

  page_of_type :
      (i c : ℕ) (t : NodeType)
      → i + suc c < int_limit
      → Listed t
      → elim t [
        | album ↦ Data.files r db key audio (pos i) (pos (suc c))
        | _ ↦ Data.children r db key (pos i) (pos (suc c)) "alpha" "asc" ""
      ]
        ≡ ok (take (suc c) (drop i xs))
  page_of_type i c album fits lists = files_page r db key xs audio i c fits lists
  page_of_type i c _ fits lists = children_page r db key xs "alpha" "asc" i c alpha fits lists

  browse_keys-page :
      (i c : ℕ)
      → i + suc c < int_limit
      → Lists
      → browse_keys r db key (pos i) (pos (suc c)) ≡ ok (take (suc c) (drop i xs))
  unfolding browse_keys
  browse_keys-page i c fits lists =
      page_of_type i c (NodeType.parse (Data.get r db key Param.cls)) fits lists

  all_of_type :
      (t : NodeType)
      → Listed t
      → elim t [
        | album ↦ Data.files r db key audio (pos 0) (negsuc 0)
        | _ ↦ Data.children r db key (pos 0) (negsuc 0) "alpha" "asc" ""
      ]
        ≡ ok (take (length xs - 1) xs)
  all_of_type album lists = files_all r db key xs audio lists
  all_of_type _ lists = children_all r db key xs "alpha" "asc" alpha lists

  -- Where Redis answers with the ranges of its list that it is asked for, a browse request for all
  -- objects, with the count 0, takes all songs of an album, or all sorted children of another
  -- object, but the last one.
  pub browse_keys-all :
      Lists → browse_keys r db key (pos 0) (browse_count (pos 0)) ≡ ok (take (length xs - 1) xs)
  unfolding browse_keys browse_count
  browse_keys-all lists = all_of_type (NodeType.parse (Data.get r db key Param.cls)) lists

  pages-take :
      (rounds c start : ℕ)
      → start + rounds * suc c < int_limit
      → Lists
      → pages r db key rounds (suc c) start ≡ ok (take (rounds * suc c) (drop start xs))
  unfolding pages browse_count
  pages-take zero c start fits lists = let e : 0 * suc c ≡ 0 = omega arith in rw e refl
  pages-take (suc rounds) c start fits lists =
      let page = browse_keys-page start c (omega arith) lists in
      let rest = pages-take rounds c (start + suc c) (omega arith) lists in
      let split : take (suc rounds * suc c) (drop start xs)
          ≡ take (suc c) (drop start xs) ++ take (rounds * suc c) (drop (start + suc c) xs) =
        let e : suc rounds * suc c ≡ suc c + rounds * suc c = omega arith in
        rw (e, take_add (suc c) (rounds * suc c) (drop start xs), drop_add start (suc c) xs) refl in
      rw (page, rest) (ap ok (sym split))

  -- Where Redis answers with the ranges of its list that it is asked for, a client that browses
  -- page after page, each for the same count after the last, gets every song of an album, or every
  -- sorted child of another object, exactly once and in the order of the list, if the pages reach
  -- its end and their last index fits an int.
  pub pages_complete :
      (rounds c : ℕ)
      → length xs ≤ rounds * suc c
      → rounds * suc c < int_limit
      → Lists
      → pages r db key rounds (suc c) 0 ≡ ok xs
  pages_complete rounds c enough fits lists =
      pages-take rounds c 0 (omega arith) lists ∙ ap ok (take_whole (rounds * suc c) xs enough)
