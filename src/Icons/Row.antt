-- ===== src/Icons/Row.antt =====
-- A line of twelve bytes of an array in src/_icons.h.
use upnp.Prelude.{ℕ, List, [], ◌∷◌}

abbrev pub row : (a b c d e f g h i j k l : ℕ) → List ℕ
row a b c d e f g h i j k l = a ∷ b ∷ c ∷ d ∷ e ∷ f ∷ g ∷ h ∷ i ∷ j ∷ k ∷ l ∷ []
