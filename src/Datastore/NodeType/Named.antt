-- ===== src/Datastore/NodeType/Named.antt =====
-- The node types as the names that are valid.
use mathlib.Core.Equiv.{◌≃◌, iso_to_equiv}
use mathlib.Core.HLevel.{Σ_prop_path}
use upnp.Prelude.{String, Bool, ◌≡◌, refl, true}
use upnp.Datastore.NodeType.{NodeType, str, parse, valid}
use upnp.Datastore.NodeType.Laws.{parse-str, valid-str, str-parse_of_valid}

Bool-IsSet : IsSet Bool
Bool-IsSet = hlevel

named : (n : (s : String) × (valid s ≡ true)) → (str (parse n.0), valid-str (parse n.0)) ≡ n
named (s, v) = Σ_prop_path (λ s. Bool-IsSet (valid s) true) (str-parse_of_valid s v)

-- The node types are equivalent to the names that NodeType::valid accepts, by NodeType::str, with
-- NodeType::parse as the inverse.
pub str-Equiv :
    (e : NodeType ≃ ((s : String) × (valid s ≡ true))) × ((t : NodeType) → (e.0 t).0 ≡ str t)
    × ((n : (s : String) × (valid s ≡ true)) → e.0 (parse n.0) ≡ n)
str-Equiv = (
  iso_to_equiv record {
    fun = λ t. (str t, valid-str t);
    inv = λ n. parse n.0;
    rinv = named;
    linv = parse-str;
  },
  λ t. refl,
  named,
)
