-- ===== src/QueryKeys/Reading.antt =====
-- Which keys differ, and which queries an invalidation reaches: ui/src/lib/queryKeys.ts.
use tropek.Prelude.{
  String, ◌≡◌, refl, sym, ap, ◌∙◌, ◌↔◌, false, Option, none, some, List, [], ◌∷◌, ◌++◌, ◌==◌,
  if◌then◌else◌,
}
use mathlib.Core.Option.{some_inj}
use tropek.QueryKeys.{Part, Family, root, all_of, under, detail, tag_keys, tag_values, below_detail}

-- The first text of a key.
abbrev pub head_text : {F : Type 0} → List (Part F) → String
head_text [] = ""
head_text (Part.text t ∷ parts) = t
head_text (Part.value f ∷ parts) = ""

family_of : String → Option Family
family_of t =
    if t == "evaluations"
    then some Family.evaluations
    else if t == "trend"
    then some Family.trends
    else if t == "slo-trends"
    then some Family.slo_trends
    else if t == "metric-heatmap"
    then some Family.heatmaps
    else if t == "evaluation-names"
    then some Family.names
    else if t == "assets"
    then some Family.assets
    else if t == "asset-types"
    then some Family.asset_types
    else if t == "label-keys"
    then some Family.label_keys
    else if t == "label-values"
    then some Family.label_values
    else if t == "slos"
    then some Family.slos
    else if t == "sli-definitions"
    then some Family.slis
    else if t == "asset-groups"
    then some Family.groups
    else if t == "slo-assignments"
    then some Family.assignments
    else if t == "datasources"
    then some Family.datasources
    else if t == "slo-groups"
    then some Family.slo_groups
    else none

family_of-root : (f : Family) → family_of (root f) ≡ some f
unfolding family_of
family_of-root Family.evaluations = refl
family_of-root Family.trends = refl
family_of-root Family.slo_trends = refl
family_of-root Family.heatmaps = refl
family_of-root Family.names = refl
family_of-root Family.assets = refl
family_of-root Family.asset_types = refl
family_of-root Family.label_keys = refl
family_of-root Family.label_values = refl
family_of-root Family.slos = refl
family_of-root Family.slis = refl
family_of-root Family.groups = refl
family_of-root Family.assignments = refl
family_of-root Family.datasources = refl
family_of-root Family.slo_groups = refl

root_injective : (f g : Family) → root f ≡ root g → f ≡ g
root_injective f g e = some_inj.0 (sym (family_of-root f) ∙ ap family_of e ∙ family_of-root g)

-- `key` starts with `prefix`, as an invalidation compares them.
abbrev pub IsPrefix : {F : Type 0} → List (Part F) → List (Part F) → Type 0
IsPrefix start whole = (rest : _) × (whole ≡ start ++ rest)

-- An invalidation of all queries of one family reaches the keys of that family and of no other.
all_of-IsPrefix :
    {F : Type 0} (f g : Family) (parts : List (Part F))
    → IsPrefix (all_of f) (under g parts) ↔ (f ≡ g)
unfolding all_of under
all_of-IsPrefix f g parts = (
  (λ (rest, e). root_injective f g (sym (ap head_text e))),
  λ same. (parts, ap (λ x. Part.text (root x) ∷ parts) (sym same)),
)

-- The queries that a registry page has for one kind of things.
pub data Query : Type 0 where
  one : String → Query
  keys_of_tags : Query
  values_of_tag : String → Query
  versions : String → Query

abbrev pub query_key : {F : Type 0} → Family → Query → List (Part F)
query_key family (Query.one name) = detail family name
query_key family Query.keys_of_tags = tag_keys family
query_key family (Query.values_of_tag key) = tag_values family key
query_key family (Query.versions name) = below_detail family name "versions"

-- The name of a thing is not a word that the keys use themselves.
abbrev pub IsFree : Query → Type 0
IsFree (Query.one name) = (name == "tag-keys") ≡ false
IsFree Query.keys_of_tags = Unit
IsFree (Query.values_of_tag key) = Unit
IsFree (Query.versions name) = (name == "tag-values") ≡ false

read_two : {F : Type 0} → String → List (Part F) → Query
read_two word [] = if word == "tag-keys" then Query.keys_of_tags else Query.one word
read_two word (Part.value f ∷ parts) = Query.one word
read_two word (Part.text t ∷ parts) =
    if word == "tag-values" then Query.values_of_tag t else Query.versions word

read : {F : Type 0} → List (Part F) → Option Query
unfolding read_two
read [] = none
read (x ∷ []) = none
read (x ∷ Part.value f ∷ parts) = none
read (x ∷ Part.text word ∷ parts) = some (read_two word parts)

read-query_key :
    (F : Type 0) (family : Family) (q : Query)
    → IsFree q
    → read (query_key {F = F} family q) ≡ some q
unfolding read detail under all_of tag_keys tag_values below_detail
read-query_key F family (Query.one name) h = rw h refl
read-query_key F family Query.keys_of_tags h = refl
read-query_key F family (Query.values_of_tag key) h = refl
read-query_key F family (Query.versions name) h = rw h refl

-- Two queries of the SLIs (or, without versions, of the SLOs or the datasources) share a cache entry
-- only where they are the same query, where no thing is named `tag-keys` and no thing with versions
-- `tag-values`.
pub query_key_injective :
    {F : Type 0} (family : Family) (q r : Query)
    → IsFree q
    → IsFree r
    → query_key {F = F} family q ≡ query_key family r
    → q ≡ r
query_key_injective {F = F} family q r hq hr e =
    some_inj.0 (sym (read-query_key F family q hq) ∙ ap read e ∙ read-query_key F family r hr)
