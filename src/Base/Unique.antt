-- ===== src/Base/Unique.antt =====
-- Lists whose elements have distinct keys. The equality of keys is a Boolean test.
use dnsplane.Base.{
  ℕ, zero, suc, ◌≡◌, refl, ap, Bool, true, false, List, [], ◌∷◌, ◌++◌, Option, none, some, arith,
  any, index_of, get_elem?, set, remove_at, any-append, Bool-cases, Option-cases, inl, inr,
}

module _ {ℓ κ} {K : Type ℓ} {A : Type κ} (beq : K → K → Bool) (key : A → K) where
  -- Some element has the key.
  abbrev pub has : K → List A → Bool
  has k xs = any (λ x. beq (key x) k) xs

  abbrev pub Distinct : List A → Type 0
  Distinct [] = Unit {0}
  Distinct (x ∷ xs) = (has (key x) xs ≡ false) × Distinct xs

  -- The index of the first element with the key.
  abbrev pub find : K → List A → Option ℕ
  find k xs = index_of (λ x. beq (key x) k) xs

module _ {ℓ κ} {K : Type ℓ} {A : Type κ} (beq : K → K → Bool) (key : A → K) where
  pub has_of_find-none : (k : K) (xs : List A) → find beq key k xs ≡ none → has beq key k xs ≡ false
  has_of_find-none k [] h = refl
  has_of_find-none k (x ∷ xs) h = ground (arith, has_of_find-none k xs)

  pub find-none_of_has : (k : K) (xs : List A) → has beq key k xs ≡ false → find beq key k xs ≡ none
  find-none_of_has k [] h = refl
  find-none_of_has k (x ∷ xs) h = ground (arith, find-none_of_has k xs)

  has-remove_at :
      (k : K) (xs : List A) (i : ℕ)
      → has beq key k xs ≡ false
      → has beq key k (remove_at xs i) ≡ false
  has-remove_at k [] i h = refl
  has-remove_at k (x ∷ xs) zero h = ground arith
  has-remove_at k (x ∷ xs) (suc i) h = ground (arith, has-remove_at k xs i)

  pub Distinct-remove_at :
      (xs : List A) (i : ℕ) → Distinct beq key xs → Distinct beq key (remove_at xs i)
  Distinct-remove_at [] i d = tt
  Distinct-remove_at (x ∷ xs) zero d = d.1
  Distinct-remove_at (x ∷ xs) (suc i) d =
      (has-remove_at (key x) xs i d.0, Distinct-remove_at xs i d.1)

  pub has_of_find :
      (k : K) (xs : List A) {i : ℕ} → find beq key k xs ≡ some i → has beq key k xs ≡ true
  has_of_find k [] h = cc
  has_of_find k (x ∷ xs) {i = zero} h = ground (arith, Option-cases (find beq key k xs))
  has_of_find k (x ∷ xs) {i = suc i} h = elim (Bool-cases (beq (key x) k)) [
    | inl e ↦ rw e refl
    | inr n ↦ rw n (has_of_find k xs {i = i} (ground (arith, Option-cases (find beq key k xs))))
  ]

  -- What a search finds has the key.
  pub find-get_elem? :
      (k : K) (xs : List A) {i : ℕ}
      → find beq key k xs ≡ some i
      → (x : A) × (get_elem? xs i ≡ some x) × (beq (key x) k ≡ true)
  find-get_elem? k [] h = cc
  find-get_elem? k (x ∷ xs) {i = zero} h = elim (Bool-cases (beq (key x) k)) [
    | inl e ↦ (x, refl, e)
    | inr n ↦ absurd (ground (arith, Option-cases (find beq key k xs)))
  ]
  find-get_elem? k (x ∷ xs) {i = suc i} h = elim (Bool-cases (beq (key x) k)) [
    | inl e ↦ absurd (ground arith)
    | inr n ↦ find-get_elem? k xs {i = i} (ground (arith, Option-cases (find beq key k xs)))
  ]

module _ {ℓ κ} {K : Type ℓ} {A : Type κ} (beq : K → K → Bool) (key : A → K) where
  -- A write of an element with the same key changes no search.
  pub has-set_same :
      (k : K) (xs : List A) (i : ℕ) (old new : A)
      → get_elem? xs i ≡ some old
      → key new ≡ key old
      → has beq key k (set xs i new) ≡ has beq key k xs
  has-set_same k [] i old new g e = refl
  has-set_same k (x ∷ xs) zero old new g e = ground (arith, ap (λ z. beq z k) e)
  has-set_same k (x ∷ xs) (suc i) old new g e = rw (has-set_same k xs i old new g e)

  pub Distinct-set_same :
      (xs : List A) (i : ℕ) (old new : A)
      → get_elem? xs i ≡ some old
      → key new ≡ key old
      → Distinct beq key xs
      → Distinct beq key (set xs i new)
  Distinct-set_same [] i old new g e d = tt
  Distinct-set_same (x ∷ xs) zero old new g e d =
      let same : key new ≡ key x = ground arith in (rw same d.0, d.1)
  Distinct-set_same (x ∷ xs) (suc i) old new g e d =
      (rw (has-set_same (key x) xs i old new g e) d.0, Distinct-set_same xs i old new g e d.1)

  pub Distinct-append :
      (xs : List A) (x : A)
      → ((a b : K) → beq a b ≡ beq b a)
      → has beq key (key x) xs ≡ false
      → Distinct beq key xs
      → Distinct beq key (xs ++ x ∷ [])
  Distinct-append [] x flip h d = (refl, tt)
  Distinct-append (y ∷ xs) x flip h d = (
    ground (arith, any-append (λ z. beq (key z) (key y)) xs (x ∷ []), flip (key x) (key y)),
    Distinct-append xs x flip (ground arith) d.1,
  )

  has-set_new :
      (k : K) (xs : List A) (i : ℕ) (new : A)
      → has beq key k xs ≡ false
      → beq (key new) k ≡ false
      → has beq key k (set xs i new) ≡ false
  has-set_new k [] i new h n = refl
  has-set_new k (x ∷ xs) zero new h n = ground arith
  has-set_new k (x ∷ xs) (suc i) new h n = ground (arith, has-set_new k xs i new)

  -- A write of an element with a key that nothing has keeps the keys distinct.
  pub Distinct-set_new :
      (xs : List A) (i : ℕ) (new : A)
      → ((a b : K) → beq a b ≡ beq b a)
      → has beq key (key new) xs ≡ false
      → Distinct beq key xs
      → Distinct beq key (set xs i new)
  Distinct-set_new [] i new flip h d = tt
  Distinct-set_new (x ∷ xs) zero new flip h d = (ground arith, d.1)
  Distinct-set_new (x ∷ xs) (suc i) new flip h d = (
    has-set_new (key x) xs i new d.0 (ground (arith, flip (key new) (key x))),
    Distinct-set_new xs i new flip (ground arith) d.1,
  )

  -- After a write in range the element's key is there.
  pub has-set_self :
      (xs : List A) (i : ℕ) (old new : A)
      → ((a : K) → beq a a ≡ true)
      → get_elem? xs i ≡ some old
      → has beq key (key new) (set xs i new) ≡ true
  has-set_self [] i old new same g = cc
  has-set_self (x ∷ xs) zero old new same g = ground (arith, same (key new))
  has-set_self (x ∷ xs) (suc i) old new same g = ground (arith, has-set_self xs i old new same)
