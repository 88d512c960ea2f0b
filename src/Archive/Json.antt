-- ===== src/Archive/Json.antt =====
-- The JSON values that fact, task and catalogue payloads are made of. Numbers are the
-- non-negative integers, which are all that the modelled code inspects.
use gh_puller.Base.{
  Bool, List, Option, String, [], if◌then◌else◌, nat_instance, none, option_instance, some,
  text_instance, ℕ, ◌==◌, ◌∷◌,
}

mutual
  pub data Json : Type 0 where
    null : Json
    boolean : Bool → Json
    number : ℕ → Json
    text : String → Json
    array : Items → Json
    object : Fields → Json

  pub data Items : Type 0 where
    nil : Items
    cons : Json → Items → Items

  pub data Fields : Type 0 where
    end : Fields
    field : String → Json → Fields → Fields

-- `payload.get(key)` on a `dict[str, Any]`; a missing key is `none`.
abbrev pub get : String → Fields → Option Json
get k end = none
get k (field j v fs) = let rest = get k fs in if j == k then some v else rest

-- `values` as a Python list of the array's members.
abbrev pub to_list : Items → List Json
to_list nil = []
to_list (cons x xs) = x ∷ to_list xs
