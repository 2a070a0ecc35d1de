-- ===== src/Didl/Classes.antt =====
-- The class of an object agrees with the element that it is written in.
use upnp.Prelude.{◌≡◌, refl, some, get_elem?}
use upnp.Prelude.Text.{begins_with}
use upnp.Datastore.NodeType.{NodeType, folder, index}
use upnp.Didl.{class_names, class_name, is_container}

-- `at` finds a class for each type, so it does not throw.
pub class_names-index : (t : NodeType) → get_elem? class_names (index t) ≡ some (class_name t)
unfolding class_name
class_names-index folder = refl
class_names-index _ = refl

-- An object of a type is written as a container element exactly if the class written for that type
-- is object.container or derived from it.
pub is_container-class_name :
    (t : NodeType) → is_container t ≡ begins_with (class_name t) "object.container"
unfolding is_container class_name begins_with
is_container-class_name folder = refl
is_container-class_name _ = refl
