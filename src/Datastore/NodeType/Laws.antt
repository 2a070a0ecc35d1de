-- ===== src/Datastore/NodeType/Laws.antt =====
-- The names of the node types are read back, and nothing else is a name.
use upnp.Prelude.{
  String, ◌≡◌, refl, sym, ◌↔◌, ◌⊎◌, inl, inr, true, false, some, List, [], ◌∷◌, get_elem?, All,
  Bool-cases, arith, ◌==◌, eq_iff, if◌then◌else◌,
}
use upnp.Datastore.NodeType.{
  NodeType, folder, audio, movie, serie, image, ebook, file, album, cover, episode, artist, index,
  names, str, parse, is_in, valid,
}

-- `at` finds a name for each type, so `str` does not throw.
pub names-index : (t : NodeType) → get_elem? names (index t) ≡ some (str t)
unfolding index str
names-index folder = refl
names-index _ = refl

-- Every node type is read back from its name.
pub parse-str : (t : NodeType) → parse (str t) ≡ t
unfolding parse str
parse-str folder = refl
parse-str _ = refl

is_in-All {ℓ} :
    (P : String → Type ℓ) (s : String) (ts : List String) → All P ts → is_in s ts ≡ true → P s
unfolding is_in
is_in-All P s [] a h = cc
is_in-All P s (t ∷ ts) (p, a) h = elim (Bool-cases (t == s)) [
  | inl e ↦ rw (sym ((eq_iff t s).0 e)) p
  | inr e ↦ is_in-All P s ts a (ground arith)
]

pub valid-str : (t : NodeType) → valid (str t) ≡ true
unfolding valid str
valid-str folder = refl
valid-str _ = refl

names-parse : All (λ t. str (parse t) ≡ t) names
unfolding parse str
names-parse =
    (refl, (refl, (refl, (refl, (refl, (refl, (refl, (refl, (refl, (refl, (refl, tt)))))))))))

pub str-parse_of_valid : (s : String) → valid s ≡ true → str (parse s) ≡ s
unfolding valid
str-parse_of_valid s = is_in-All (λ t. str (parse t) ≡ t) s names names-parse

-- The names that NodeType::valid accepts are exactly those that NodeType::str gives back after
-- NodeType::parse.
pub str-parse_iff : (s : String) → (str (parse s) ≡ s) ↔ (valid s ≡ true)
str-parse_iff s = (λ e. rw (sym e) (valid-str (parse s)), str-parse_of_valid s)

-- One test of `parse`.
test_cases :
    (s n : String) (t rest : NodeType)
    → str t ≡ n
    → (rest ≡ file) ⊎ (str rest ≡ s)
    → ((if s == n then t else rest) ≡ file) ⊎ (str (if s == n then t else rest) ≡ s)
test_cases s n t rest e h = ground (arith, eq_iff s n)

parse_cases : (s : String) → (parse s ≡ file) ⊎ (str (parse s) ≡ s)
unfolding parse str
parse_cases s = test_cases s _ folder _ refl (
    test_cases s _ audio _ refl (
      test_cases s _ movie _ refl (
        test_cases s _ serie _ refl (
          test_cases s _ image _ refl (
            test_cases s _ ebook _ refl (
              test_cases s _ album _ refl (
                test_cases s _ cover _ refl
                  (test_cases s _ artist _ refl (test_cases s _ episode _ refl (inl refl))))))))))

-- Whatever is no type's name is read as a file.
parse_of_invalid : (s : String) → valid s ≡ false → parse s ≡ file
parse_of_invalid s h = elim (parse_cases s) [ inl e ↦ e | inr e ↦ cc ((str-parse_iff s).0 e) ]
