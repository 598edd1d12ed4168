-- ===== src/Sidecar/Json.antt =====
-- JSON documents as encoding/json presents them, and objects as Go maps. A number is kept abstract:
-- encoding/json is not part of the repository, and Numbers says what it does with float64 and int64.
use openwhisk_runtime_go.Base.{
  ℕ, ◌≡◌, refl, Bool, true, false, Option, none, some, List, [], ◌∷◌, String, if◌then◌else◌, str_eq,
  arith, eq_iff,
}
use openwhisk_runtime_go.Base.Float64.{Float64}

pub record Numbers (f : Float64) : Type 1 where
  pub Number : Type 0
  -- Marshal and Unmarshal on a float64 and on an int64; Unmarshal fails on a number out of range,
  -- and on an int64 also where the number is no integer.
  pub of_float : f.Carrier → Number
  pub as_float : Number → Option f.Carrier
  pub of_int : ℕ → Number
  pub as_int : Number → Option ℕ
  -- The encodings are read back as they were.
  pub as_float-of_float : (x : f.Carrier) → as_float (of_float x) ≡ some x
  pub as_int-of_int : (n : ℕ) → as_int (of_int n) ≡ some n

mutual
  pub data Json (N : Type 0) : Type 0 where
    null : Json N
    boolean : Bool → Json N
    number : N → Json N
    text : String → Json N
    array : Items N → Json N
    object : Members N → Json N

  pub data Items (N : Type 0) : Type 0 where
    no_items : Items N
    item : Json N → Items N → Items N

  pub data Members (N : Type 0) : Type 0 where
    no_members : Members N
    member : String → Json N → Members N → Members N

abbrev pub elem : String → List String → Bool
elem k [] = false
elem k (j ∷ js) = if str_eq j k then true else elem k js

module _ {N : Type 0} where
  unfoldable pub lookup : String → Members N → Option (Json N)
  lookup k no_members = none
  lookup k (member j v m) = if str_eq j k then some v else lookup k m

  unfoldable pub delete : String → Members N → Members N
  delete k no_members = no_members
  delete k (member j v m) = let rest = delete k m in if str_eq j k then rest else member j v rest

  -- m[k] = v
  unfoldable pub insert : String → Json N → Members N → Members N
  insert k v m = member k v (delete k m)

  unfoldable pub delete_all : List String → Members N → Members N
  delete_all [] m = m
  delete_all (k ∷ ks) m = delete_all ks (delete k m)

  pub lookup-delete :
      (k j : String) (m : Members N)
      → lookup j (delete k m) ≡ (if str_eq k j then none else lookup j m)
  unfolding lookup delete
  lookup-delete k j no_members = ground arith
  lookup-delete k j (member i v m) =
      ground (arith, eq_iff i k, eq_iff i j, eq_iff k j, lookup-delete k j m)

  pub delete-delete : (k : String) (m : Members N) → delete k (delete k m) ≡ delete k m
  unfolding delete
  delete-delete k no_members = refl
  delete-delete k (member j v m) = ground (arith, delete-delete k m)

  pub lookup-delete_all :
      (ks : List String) (j : String) (m : Members N)
      → lookup j (delete_all ks m) ≡ (if elem j ks then none else lookup j m)
  unfolding delete_all
  lookup-delete_all [] j m = refl
  lookup-delete_all (k ∷ ks) j m =
      ground (arith, lookup-delete k j m, lookup-delete_all ks j (delete k m))
