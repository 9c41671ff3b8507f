-- ===== src/Text/Dict.antt =====
-- A Go map with text keys, as an association list: a missing key has no value.
use dnsplane.Base.{
  suc, ◌≤◌, ◌≡◌, refl, List, [], ◌∷◌, Option, none, some, arith, length, if◌then◌else◌,
}
use dnsplane.Text.{Text, text_eq}
use dnsplane.Text.Equality.{text_eq_iff}

module _ {ℓ} {V : Type ℓ} where
  unfoldable pub get : Text → List (Text × V) → Option V
  get k [] = none
  get k ((j, v) ∷ m) = if text_eq j k then some v else get k m

  unfoldable pub put : Text → V → List (Text × V) → List (Text × V)
  put k v [] = (k, v) ∷ []
  put k v ((j, w) ∷ m) = if text_eq j k then (k, v) ∷ m else (j, w) ∷ put k v m

  pub get-put :
      (k j : Text) (v : V) (m : List (Text × V))
      → get j (put k v m) ≡ (if text_eq k j then some v else get j m)
  unfolding get put
  get-put k j v [] = refl
  get-put k j v ((i, w) ∷ m) =
      ground (arith, text_eq_iff k j, text_eq_iff i k, text_eq_iff i j, get-put k j v m)

  pub length-put-le : (k : Text) (v : V) (m : List (Text × V)) → length (put k v m) ≤ suc (length m)
  unfolding put
  length-put-le k v [] = omega arith
  length-put-le k v ((j, w) ∷ m) = ground (arith, length-put-le k v m)

  -- A write to a key that is there does not grow the map.
  pub length-put_there :
      (k : Text) (v w : V) (m : List (Text × V)) → get k m ≡ some w → length (put k v m) ≡ length m
  unfolding get put
  length-put_there k v w [] h = ground arith
  length-put_there k v w ((j, u) ∷ m) h = ground (arith, length-put_there k v w m)

  -- A write to a key that is not there adds one entry.
  pub length-put_new :
      (k : Text) (v : V) (m : List (Text × V))
      → get k m ≡ none
      → length (put k v m) ≡ suc (length m)
  unfolding get put
  length-put_new k v [] h = refl
  length-put_new k v ((j, u) ∷ m) h = ground (arith, length-put_new k v m)
