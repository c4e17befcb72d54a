-- ===== src/Planner/Duplicates.antt =====
-- `_prefer_non_null_duplicate_object`: which of several values of one key counts.
use glassrail.Common.{
  Bool, Bool-cases, List, Option, String, [], ap, arith, false, if◌then◌else◌, inl, inr, insert,
  lookup, lookup-insert, none, not, refl, some, true, ◌&&◌, ◌++◌, ◌==◌, ◌∙◌, ◌∷◌, ◌≡◌, string_eq,
}
use glassrail.Core.{Json}
use glassrail.Planner.Payload.{is_null}

-- `key in result and value is None and result[key] is not None`
unfoldable pub repeats_null : Json → Option Json → Bool
unfolding is_null
repeats_null value none = false
repeats_null value (some kept) = is_null value && not (is_null kept)

-- The loop over the pairs.
unfoldable pub keep_non_null : List (String × Json) → List (String × Json) → List (String × Json)
unfolding repeats_null
keep_non_null [] result = result
keep_non_null ((key, value) ∷ pairs) result =
    keep_non_null pairs
      (if repeats_null value (lookup key result) then result else insert key value result)

unfoldable pub prefer_non_null_duplicate_object : List (String × Json) → List (String × Json)
unfolding keep_non_null
prefer_non_null_duplicate_object pairs = keep_non_null pairs []

-- The values of one key, in order, and the last of them that is not null.
unfoldable pub values : String → List (String × Json) → List Json
values key [] = []
values key ((here, value) ∷ pairs) =
    let later = values key pairs in if here == key then value ∷ later else later

unfoldable pub last_non_null : List Json → Json
unfolding is_null
last_non_null [] = Json.null
last_non_null (v ∷ vs) = let later = last_non_null vs in if is_null later then v else later

-- What counts of the values of a key: nothing, if it does not occur.
unfoldable pub counted : List Json → Option Json
unfolding last_non_null
counted [] = none
counted (v ∷ vs) = some (last_non_null (v ∷ vs))

abbrev before : Option Json → List Json
before none = []
before (some v) = v ∷ []

null_lem : (v : Json) → is_null v ≡ true → v ≡ Json.null
unfolding is_null
null_lem v e = ground (arith, e)

counted_step :
    (o : Option Json) (value : Json) (vs : List Json)
    → counted (before (if repeats_null value o then o else some value) ++ vs)
      ≡ counted (before o ++ value ∷ vs)
unfolding counted repeats_null last_non_null
counted_step none value vs = refl
counted_step (some v) value vs =
    ground (arith, null_lem v, null_lem value, null_lem (last_non_null vs))

counted_one : (o : Option Json) → o ≡ counted (before o ++ [])
unfolding counted last_non_null is_null
counted_one none = refl
counted_one (some v) = refl

lookup_step :
    (key here : String) (value : Json) (result : List (String × Json))
    → lookup key
        (if repeats_null value (lookup here result) then result else insert here value result)
      ≡ (if here == key
          then (if repeats_null value (lookup key result) then lookup key result else some value)
          else lookup key result)
lookup_step key here value result =
    ground (arith, lookup-insert here key value result, string_eq.beq_iff here key)

lookup-keep_non_null :
    (key : String) (pairs result : List (String × Json))
    → lookup key (keep_non_null pairs result)
      ≡ counted (before (lookup key result) ++ values key pairs)
unfolding keep_non_null values
lookup-keep_non_null key [] result = counted_one (lookup key result)
lookup-keep_non_null key ((here, value) ∷ pairs) result =
    let next =
      if repeats_null value (lookup here result) then result else insert here value result in
    let o = lookup key result in
    lookup-keep_non_null key pairs next
    ∙ ap (λ p. counted (before p ++ values key pairs)) (lookup_step key here value result)
    ∙ elim (Bool-cases (here == key)) [
      | inl e ↦ rw e (counted_step o value (values key pairs))
      | inr e ↦ rw e refl
    ]

-- The value that counts for a key is the last of its values that is not null; null, if all of them
-- are; and the key is missing if it does not occur.
pub lookup-prefer_non_null_duplicate_object :
    (key : String) (pairs : List (String × Json))
    → lookup key (prefer_non_null_duplicate_object pairs) ≡ counted (values key pairs)
unfolding prefer_non_null_duplicate_object lookup
lookup-prefer_non_null_duplicate_object key pairs = lookup-keep_non_null key pairs []
