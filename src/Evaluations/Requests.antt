-- ===== src/Evaluations/Requests.antt =====
-- features/evaluations/mappers.ts, the write side: the requests that the domain's inputs become.
pub mod Laws
use tropek.Prelude.{
  ℕ, zero, suc, ◌+◌, ◌-◌, ◌*◌, ◌/◌, ◌%◌, ◌≤◌, ◌<◌, String, ◌≡◌, refl, sym, ap, ◌∙◌, ◌≢◌, ◌↔◌, ◌⊎◌,
  inl, inr, Bool, true, false, not, ◌&&◌, ◌||◌, Option, none, some, List, [], ◌∷◌, ◌++◌, map,
  reverse, arith, ◌==◌, eq_iff, eq_refl, ltb, leb, eqb, if◌then◌else◌, Bool-cases, Bool_ext,
  Option-cases, or_default, or_else, and_then, map?, is_some, length, get_elem?, filter, find, any,
  All, Any, length-append, length-map, length-reverse, get_elem?-append_left,
  get_elem?-append_length, get_elem?-reverse, get_elem?-map, All-append, ltb→lt, lt→ltb, leb→le,
  eqb→eq, eqb_refl, tests, min, max,
}
use tropek.Js.Map.{
  contains, IsDistinct, Map, keys, get, set, set_all, from_entries, find_last, get-set,
  get-from_entries, contains-keys-set, keys-set-IsDistinct, contains-keys,
}
use tropek.Js.Unique.{
  unique_from, unique_by, unique, unique_by-IsDistinct, contains-unique_by, find-unique_by,
  All-unique_by, Any-of_contains, contains_of-Any,
}
use tropek.Js.Text.{◌+++◌, decimal}
use tropek.Js.MultiMap.{
  push_at, non_empty, more, more_nil, more-more, get-push_at, values, values-push_at-perm,
}
use tropek.Evaluations.Domain.{DateRange}

-- `ReEvaluateMode`
pub data ReEvaluateMode : Type 0 where
  baseline : ReEvaluateMode
  date evaluation : String → ReEvaluateMode

pub data PinStrategy : Type 0 where
  skip_to_pin ignore_pin : PinStrategy

pub record ReEvaluateInput (N : Type 0) : Type 0 where
  pub asset_name : String
  pub slo_name : Option String
  pub slo_names : Option (List String)
  pub mode : ReEvaluateMode
  pub slo_version : Option N
  pub dry_run : Bool
  pub pin_strategy : Option PinStrategy

-- `ReEvaluateScope`, whose only kind is the asset.
pub record ReEvaluateScope : Type 0 where
  pub asset_name : String

-- `ReEvaluateSelector`, with `everything` for null.
pub data ReEvaluateSelector : Type 0 where
  slo : String → ReEvaluateSelector
  evaluation_names : List String → ReEvaluateSelector
  everything : ReEvaluateSelector

-- The three bodies, told apart by what only one of them has.
pub data BodyKind : Type 0 where
  from_date : String → BodyKind
  from_baseline : Option PinStrategy → BodyKind
  from_evaluation : BodyKind

pub record RequestBody (N : Type 0) : Type 0 where
  pub scope : ReEvaluateScope
  pub selector : ReEvaluateSelector
  pub slo_version : Option N
  pub dry_run : Bool
  pub kind : BodyKind

pub record ReEvaluateDto (N : Type 0) : Type 0 where
  pub endpoint : String
  pub request_body : RequestBody N

unfoldable pub build_scope : String → ReEvaluateScope
build_scope asset_name = record { asset_name = asset_name }

-- `input.sloNames != null && input.sloNames.length > 0`
unfoldable pub select_names : Option (List String) → ReEvaluateSelector
select_names none = ReEvaluateSelector.everything
select_names (some []) = ReEvaluateSelector.everything
select_names (some (name ∷ names)) = ReEvaluateSelector.evaluation_names (name ∷ names)

unfoldable pub select : Option String → Option (List String) → ReEvaluateSelector
unfolding select_names
select (some slo_name) slo_names = ReEvaluateSelector.slo slo_name
select none slo_names = select_names slo_names

unfoldable pub endpoint_of : ReEvaluateMode → String
endpoint_of ReEvaluateMode.baseline = "/evaluations/re-evaluate/from-baseline"
endpoint_of (ReEvaluateMode.date since) = "/evaluations/re-evaluate/from-date"
endpoint_of (ReEvaluateMode.evaluation id) = "/evaluations/re-evaluate/from-evaluation/" +++ id

unfoldable pub body_kind : ReEvaluateMode → Option PinStrategy → BodyKind
body_kind ReEvaluateMode.baseline pin_strategy = BodyKind.from_baseline pin_strategy
body_kind (ReEvaluateMode.date since) pin_strategy = BodyKind.from_date since
body_kind (ReEvaluateMode.evaluation id) pin_strategy = BodyKind.from_evaluation

module _ {N : Type 0} where
  unfoldable pub build_selector : ReEvaluateInput N → ReEvaluateSelector
  unfolding select
  build_selector input = select input.slo_name input.slo_names

  unfoldable pub re_evaluate_input_to_dto : ReEvaluateInput N → ReEvaluateDto N
  unfolding build_scope build_selector endpoint_of body_kind
  re_evaluate_input_to_dto input = record {
    endpoint = endpoint_of input.mode;
    request_body = record {
      scope = build_scope input.asset_name;
      selector = build_selector input;
      slo_version = input.slo_version;
      dry_run = input.dry_run;
      kind = body_kind input.mode input.pin_strategy;
    };
  }
