-- ===== src/TimeRange/Params.antt =====
-- The parameters of the URL after a range is written: withTimeParamsLast of
-- ui/src/lib/search-params.ts and writeRange of ui/src/lib/time-range-context.tsx.
use tropek.Prelude.{
  String, ◌≡◌, refl, ap, ◌∙◌, Bool, true, ◌||◌, Option, none, some, List, [], ◌∷◌, arith, ◌==◌,
  eq_iff, if◌then◌else◌, or_else,
}
use tropek.Js.Map.{get}
use tropek.Js.SearchParams.{remove, set_param, get-remove, get-set_param}
use tropek.TimeRange.Provider.{other_params, set_given, with_time_params_last, put_to, put_params}

abbrev is_time_name : String → Bool
is_time_name k = k == "from" || k == "to"

get-other_params :
    (m : List (String × String)) (k : String)
    → get (other_params m) k ≡ (if is_time_name k then none else get m k)
unfolding get other_params
get-other_params [] k = ground arith
get-other_params ((i, w) ∷ m) k = ground (
  arith,
  eq_iff i k,
  eq_iff i "from",
  eq_iff i "to",
  eq_iff k "from",
  eq_iff k "to",
  get-other_params m k,
)

get-set_given :
    (o : Option String) (name k : String) (m : List (String × String))
    → get (set_given o name m) k ≡ (if name == k then or_else o (get m k) else get m k)
unfolding set_given
get-set_given none name k m = ground arith
get-set_given (some v) name k m = get-set_param m name k v

-- withTimeParamsLast changes the value of no parameter.
pub get-with_time_params_last :
    (m : List (String × String)) (k : String) → get (with_time_params_last m) k ≡ get m k
unfolding with_time_params_last
get-with_time_params_last m k =
    rw
      (
        get-set_given (get m "to") "to" k (set_given (get m "from") "from" (other_params m)),
        get-set_given (get m "from") "from" k (other_params m),
        get-other_params m k,
      )
      (ground (arith, eq_iff "from" k, eq_iff "to" k, eq_iff k "from", eq_iff k "to"))

other_params-remove :
    (m : List (String × String)) (k : String)
    → is_time_name k ≡ true
    → other_params (remove m k) ≡ other_params m
unfolding other_params remove
other_params-remove [] k h = refl
other_params-remove ((i, w) ∷ m) k h = ground (arith, eq_iff i k, h, other_params-remove m k h)

other_params-set_param :
    (m : List (String × String)) (k v : String)
    → is_time_name k ≡ true
    → other_params (set_param m k v) ≡ other_params m
unfolding other_params set_param
other_params-set_param [] k v h = ground (arith, h)
other_params-set_param ((i, w) ∷ m) k v h =
    ground (arith, eq_iff i k, h, other_params-set_param m k v h, other_params-remove m k h)

other_params-idempotent :
    (m : List (String × String)) → other_params (other_params m) ≡ other_params m
unfolding other_params
other_params-idempotent [] = refl
other_params-idempotent ((i, w) ∷ m) = ground (arith, other_params-idempotent m)

other_params-set_given :
    (o : Option String) (m : List (String × String)) (k : String)
    → is_time_name k ≡ true
    → other_params (set_given o k m) ≡ other_params m
unfolding set_given
other_params-set_given none m k h = refl
other_params-set_given (some v) m k h = other_params-set_param m k v h

-- withTimeParamsLast leaves the other parameters as they are, in order.
pub other_params-with_time_params_last :
    (m : List (String × String)) → other_params (with_time_params_last m) ≡ other_params m
unfolding with_time_params_last
other_params-with_time_params_last m =
    other_params-set_given (get m "to") _ "to" refl
    ∙ other_params-set_given (get m "from") _ "from" refl
    ∙ other_params-idempotent m

other_params-put_to :
    (to : Option String) (m : List (String × String)) → other_params (put_to to m) ≡ other_params m
unfolding put_to
other_params-put_to none m = other_params-remove m "to" refl
other_params-put_to (some t) m =
    ground (arith, other_params-remove m "to" refl, other_params-set_param m "to" t refl)

pub other_params-put_params :
    (from : String) (to : Option String) (m : List (String × String))
    → other_params (put_params (from, to) m) ≡ other_params m
unfolding put_params
other_params-put_params from to m =
    other_params-with_time_params_last (put_to to (set_param m "from" from))
    ∙ other_params-put_to to (set_param m "from" from)
    ∙ other_params-set_param m "from" from refl

-- The text that stands in the URL for `to`.
abbrev pub shown_to : Option String → Option String
shown_to none = none
shown_to (some t) = if t == "" then none else some t

get-put_to :
    (to : Option String) (m : List (String × String)) (k : String)
    → get (put_to to m) k ≡ (if "to" == k then shown_to to else get m k)
unfolding put_to
get-put_to none m k = get-remove m "to" k
get-put_to (some t) m k = ground (arith, get-remove m "to" k, get-set_param m "to" k t)

pub get-put_params :
    (from : String) (to : Option String) (m : List (String × String)) (k : String)
    → get (put_params (from, to) m) k
      ≡ (if "to" == k then shown_to to else if "from" == k then some from else get m k)
unfolding put_params
get-put_params from to m k =
    get-with_time_params_last (put_to to (set_param m "from" from)) k
    ∙ get-put_to to (set_param m "from" from) k
    ∙ ap (λ o. if "to" == k then shown_to to else o) (get-set_param m "from" k from)
