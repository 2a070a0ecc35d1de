-- ===== src/Ssdp/Server/Registered.antt =====
-- The namespaces that the constructor of `SSDPServerImpl` registers.
use mathlib.Core.List.{append_assoc, append-nil}
use upnp.Prelude.{String, ◌≡◌, sym, subst, ◌∙◌, [], ◌∷◌, ◌++◌}
use upnp.Prelude.StdMap.{StdMap, IsSorted, put-sorted}
use upnp.Ssdp.Server.{register_namespace, register_all}

register_all_onto :
    (left so_far : StdMap String)
    → IsSorted (so_far ++ left)
    → register_all left so_far ≡ so_far ++ left
unfolding register_all register_namespace
register_all_onto [] so_far sorted = rw append-nil
register_all_onto ((ns, location) ∷ left) so_far sorted =
    let joined = append_assoc so_far ((ns, location) ∷ []) left in
    let rest =
      register_all_onto left (so_far ++ (ns, location) ∷ []) (subst IsSorted (sym joined) sorted) in
    rw (put-sorted ns location so_far left sorted) (rest ∙ joined)

-- The constructor registers exactly the namespaces that it is given, where they are sorted by key,
-- as a std::map keeps them.
pub register_all_lem :
    (namespaces : StdMap String) → IsSorted namespaces → register_all namespaces [] ≡ namespaces
register_all_lem namespaces sorted = register_all_onto namespaces [] sorted
