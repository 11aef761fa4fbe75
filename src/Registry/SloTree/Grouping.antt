-- ===== src/Registry/SloTree/Grouping.antt =====
-- The SLOs that `buildDatasourceTree` shows below each datasource, grouped by SLI.
use tropek.Prelude.{
  ◌∙◌, ◌&&◌, any, String, ◌≡◌, refl, sym, ap, inl, inr, false, not, none, List, [], ◌∷◌, ◌++◌, map,
  arith, ◌==◌, eq_iff, Bool-cases, or_default, filter,
}
use tropek.Js.Unique.{unique-IsDistinct, contains-unique}
use tropek.Js.Map.{contains, IsDistinct, Map, keys, get, keys-set-IsDistinct}
use tropek.Js.MultiMap.{
  push_at, more, more_nil, more-more, get-push_at, values, values-push_at-perm,
}
use mathlib.Core.List.{Perm, append-nil, append_assoc, perm_append_comm, perm_middle}
use mathlib.Core.List.Perm
use tropek.Registry.Types.{MinSlo, MinSli, MinDs, MinBinding, TreeNode, to_nodes}
use tropek.Registry.Names.{names_in, names_in_all, is_slo}
use tropek.Registry.SloTree.{
  sli_key, group_by_sli, slo_leaf, sli_branch, bound_slos, datasource_node, slos_by_name,
  slis_by_name,
}

-- Each SLI key has the bound SLOs with that key, in their order.
pub get-group_by_sli :
    (slos : Map MinSlo) (m : Map (List String)) (names : List String) (k : String)
    → get (group_by_sli slos m names) k ≡ more (get m k) (filter (λ n. sli_key slos n == k) names)
unfolding group_by_sli
get-group_by_sli slos m [] k = sym (more_nil (get m k))
get-group_by_sli slos m (n ∷ names) k =
    rw (get-group_by_sli slos (push_at m (sli_key slos n) n) names k) (
      rw (get-push_at m (sli_key slos n) k n) (elim (Bool-cases (sli_key slos n == k)) [
        | inl e ↦ rw e (more-more (get m k) n (filter (λ n. sli_key slos n == k) names))
        | inr e ↦ rw (e, more_nil (get m k))
      ]))

values-group_by_sli-perm :
    (slos : Map MinSlo) (m : Map (List String)) (names : List String)
    → Perm (values (group_by_sli slos m names)) (values m ++ names)
unfolding group_by_sli
values-group_by_sli-perm slos m [] = rw append-nil (Perm.refl _)
values-group_by_sli-perm slos m (n ∷ names) =
    Perm.trans (values-group_by_sli-perm slos (push_at m (sli_key slos n) n) names) (
      Perm.trans (Perm.append (values-push_at-perm m (sli_key slos n) n) (Perm.refl names))
        (Perm.symm (perm_middle (values m) names)))

group_by_sli-IsDistinct :
    (slos : Map MinSlo) (m : Map (List String)) (names : List String)
    → IsDistinct (keys m)
    → IsDistinct (keys (group_by_sli slos m names))
unfolding group_by_sli push_at
group_by_sli-IsDistinct slos m [] d = d
group_by_sli-IsDistinct slos m (n ∷ names) d =
    group_by_sli-IsDistinct slos (push_at m (sli_key slos n) n) names
      (keys-set-IsDistinct m (sli_key slos n) _ d)

-- The entries of the map other than the one that the loop skips.
abbrev others : Map (List String) → Map (List String)
others m = filter (λ e. not (e.0 == "__none__")) m

others_absent : (m : Map (List String)) → contains "__none__" (keys m) ≡ false → others m ≡ m
unfolding contains
others_absent [] h = refl
others_absent ((k, vs) ∷ m) h = ground (arith, others_absent m)

get_absent : (m : Map (List String)) (k : String) → contains k (keys m) ≡ false → get m k ≡ none
unfolding contains get
get_absent [] k h = refl
get_absent ((j, vs) ∷ m) k h = ground (arith, get_absent m k)

others-perm :
    (m : Map (List String))
    → IsDistinct (keys m)
    → Perm (values (others m) ++ or_default (get m "__none__") []) (values m)
unfolding get
others-perm [] d = Perm.refl []
others-perm ((k, vs) ∷ m) d = elim (Bool-cases (k == "__none__")) [
  | inl e ↦
      rw (e, others_absent m (rw ((eq_iff k "__none__").0 e) at d.0))
        (perm_append_comm (values m) vs)
  | inr e ↦ rw (e, append_assoc) (Perm.append (Perm.refl vs) (others-perm m d.1))
]

leaves-names_in :
    (m : Map MinSlo) (ns : List String) → names_in_all is_slo (to_nodes (map (slo_leaf m) ns)) ≡ ns
unfolding names_in_all slo_leaf
leaves-names_in m [] = refl
leaves-names_in m (n ∷ ns) = ap (◌∷◌ n) (leaves-names_in m ns)

to_nodes-append :
    (ts us : List TreeNode)
    → names_in_all is_slo (to_nodes (ts ++ us))
      ≡ names_in_all is_slo (to_nodes ts) ++ names_in_all is_slo (to_nodes us)
unfolding names_in_all
to_nodes-append [] us = refl
to_nodes-append (t ∷ ts) us =
    rw (to_nodes-append ts us) (sym (append_assoc (names_in is_slo t) _ _))

branches-names_in :
    (slis : Map MinSli) (slos : Map MinSlo) (m : Map (List String))
    → names_in_all is_slo (to_nodes (map (sli_branch slis slos) m)) ≡ values m
unfolding names_in_all sli_branch
branches-names_in slis slos [] = refl
branches-names_in slis slos ((k, vs) ∷ m) =
    rw (leaves-names_in slos vs, branches-names_in slis slos m)

-- The SLOs of the tree are those that a binding joins to the datasource, each once.
abbrev pub HasBound : List MinBinding → String → List String → String → Type 0
HasBound bindings ds_name shown slo_name =
    (bound : List String) × Perm shown bound
    × IsDistinct bound
    × (contains slo_name bound
        ≡ any (λ b. b.data_source_name == ds_name && b.slo_name == slo_name) bindings)

contains-bound :
    (bindings : List MinBinding) (ds_name slo_name : String)
    → contains slo_name
        (map (λ b. b.slo_name) (filter (λ b. b.data_source_name == ds_name) bindings))
      ≡ any (λ b. b.data_source_name == ds_name && b.slo_name == slo_name) bindings
unfolding contains
contains-bound [] ds_name slo_name = refl
contains-bound (b ∷ bs) ds_name slo_name = ground (arith, contains-bound bs ds_name slo_name)

names_in-datasource_node :
    (slis : List MinSli) (slos : List MinSlo) (bindings : List MinBinding) (ds : MinDs)
    → Perm (names_in is_slo (datasource_node slis slos bindings ds)) (bound_slos bindings ds.name)
unfolding names_in datasource_node
names_in-datasource_node slis slos bindings ds =
    let sm = slos_by_name slos in
    let m = group_by_sli sm [] (bound_slos bindings ds.name) in
    rw
      (to_nodes-append (map (sli_branch (slis_by_name slis) sm) (others m))
        (map (slo_leaf sm) (or_default (get m "__none__") [])))
      (rw
        (
          branches-names_in (slis_by_name slis) sm (others m),
          leaves-names_in sm (or_default (get m "__none__") []),
        )
        (Perm.trans (others-perm m (group_by_sli-IsDistinct sm [] (bound_slos bindings ds.name) tt))
          (values-group_by_sli-perm sm [] (bound_slos bindings ds.name))))

-- Below its node in `buildDatasourceTree`, whether under an SLI or not, a datasource has each SLO
-- that a binding joins to it exactly once, and no other SLO: the names there are, in some order,
-- a list without repetitions that has a name exactly where some binding joins it to the datasource.
pub datasource_node-slos :
    (slis : List MinSli) (slos : List MinSlo) (bindings : List MinBinding) (ds : MinDs)
    (slo_name : String)
    → HasBound bindings ds.name (names_in is_slo (datasource_node slis slos bindings ds)) slo_name
unfolding bound_slos
datasource_node-slos slis slos bindings ds slo_name =
    let xs =
      map (λ (b : MinBinding). b.slo_name)
        (filter (λ (b : MinBinding). b.data_source_name == ds.name) bindings) in
    (
      bound_slos bindings ds.name,
      names_in-datasource_node slis slos bindings ds,
      unique-IsDistinct xs,
      contains-unique xs slo_name ∙ contains-bound bindings ds.name slo_name,
    )
