-- ===== src/Forms/PickSli/Offered.antt =====
-- The SLIs that the wizard offers after a tag is switched:
-- features/registry/forms/WizardStepPickSli.tsx.
use tropek.Prelude.{
  String, ◌≡◌, refl, ap, ◌∙◌, Bool, false, not, ◌&&◌, ◌||◌, none, List, [], ◌∷◌, arith, eq_iff,
  filter, any,
}
use tropek.Js.Map.{contains, Map, keys, get, set}
use tropek.Entities.Slis.{Sli}
use tropek.Forms.PickSli.{is_value, has_value, handle_tag_toggle, has_tags, filtered_slis}

lacks-set :
    (f : String × String → Bool) (m : Map String) (k v : String)
    → contains k (keys m) ≡ false
    → any f (set m k v) ≡ (any f m || f (k, v))
unfolding set contains
lacks-set f [] k v h = ground arith
lacks-set f ((j, w) ∷ m) k v h = ground (arith, h, eq_iff j k, eq_iff k j, lacks-set f m k v)

get-fresh : (m : Map String) (k : String) → contains k (keys m) ≡ false → get m k ≡ none
unfolding get contains
get-fresh [] k h = refl
get-fresh ((j, w) ∷ m) k h = ground (arith, h, eq_iff j k, eq_iff k j, get-fresh m k)

handle_tag_toggle-fresh :
    (key value : String) (m : Map String)
    → contains key (keys m) ≡ false
    → handle_tag_toggle key value m ≡ set m key value
unfolding handle_tag_toggle
handle_tag_toggle-fresh key value m h =
    let miss : has_value m key value ≡ false = ap (λ o. is_value o value) (get-fresh m key h) in
    rw miss refl

module _ {N D : Type 0} where
  has_tags-set :
      (key value : String) (selected : Map String) (sli : Sli N D)
      → contains key (keys selected) ≡ false
      → has_tags (set selected key value) sli
        ≡ (has_tags selected sli && has_value sli.tags key value)
  unfolding has_tags
  has_tags-set key value selected sli h =
      ground (arith, lacks-set (λ e. not (has_value sli.tags e.0 e.1)) selected key value h)

  filter-filter :
      (p q r : Sli N D → Bool) (xs : List (Sli N D))
      → ((x : Sli N D) → r x ≡ (p x && q x))
      → filter r xs ≡ filter q (filter p xs)
  filter-filter p q r [] h = refl
  filter-filter p q r (x ∷ xs) h = ground (arith, h x, filter-filter p q r xs h)

  -- A tag whose key was not selected narrows the SLIs on offer to those of them with the tag.
  pub filtered_slis-handle_tag_toggle :
      (key value : String) (selected : Map String) (slis : List (Sli N D))
      → contains key (keys selected) ≡ false
      → filtered_slis (handle_tag_toggle key value selected) slis
        ≡ filter (λ s. has_value s.tags key value) (filtered_slis selected slis)
  unfolding filtered_slis
  filtered_slis-handle_tag_toggle key value selected slis fresh =
      ap (λ m. filter (has_tags m) slis) (handle_tag_toggle-fresh key value selected fresh)
      ∙ filter-filter (has_tags selected) (λ s. has_value s.tags key value)
          (has_tags (set selected key value)) slis (λ s. has_tags-set key value selected s fresh)
