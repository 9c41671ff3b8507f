-- ===== src/Dashboard/Newest.antt =====
-- data/dashboard_live.go: what the log shows.
use dnsplane.Base.{
  ℕ, zero, suc, ◌-◌, ◌≤◌, ◌≡◌, refl, sym, ap, ◌∙◌, List, [], ◌∷◌, ◌++◌, arith, length,
  length-append, take, drop, reverse, leb, ltb, min, Bool-cases, inl, inr,
}
use mathlib.Core.List.{reverse-cons, reverse-append}
use dnsplane.Base.Int.{ℤ}
use dnsplane.Dashboard.{
  last_of, Resolution, Live, timed_at, append_log, dashboard_log_cap, record_dashboard_resolution,
  limit_of, get_dashboard_log_newest_first,
}

module _ {ℓ} {A : Type ℓ} where
  drop-append : (n : ℕ) (xs ys : List A) → n ≤ length xs → drop n (xs ++ ys) ≡ drop n xs ++ ys
  drop-append zero xs ys h = refl
  drop-append (suc n) [] ys h = absurd (omega (arith, h))
  drop-append (suc n) (x ∷ xs) ys h = drop-append n xs ys (omega (arith, h))

  take-append_long : (n : ℕ) (xs ys : List A) → n ≤ length xs → take n (xs ++ ys) ≡ take n xs
  take-append_long zero xs ys h = refl
  take-append_long (suc n) [] ys h = absurd (omega (arith, h))
  take-append_long (suc n) (x ∷ xs) ys h =
      ap (λ (l : List A). x ∷ l) (take-append_long n xs ys (omega (arith, h)))

  take-all : (n : ℕ) (xs : List A) → length xs ≤ n → take n xs ≡ xs
  take-all zero [] h = refl
  take-all zero (x ∷ xs) h = absurd (omega (arith, h))
  take-all (suc n) [] h = refl
  take-all (suc n) (x ∷ xs) h = ap (λ (l : List A). x ∷ l) (take-all n xs (omega (arith, h)))

  take-take : (m n : ℕ) (xs : List A) → m ≤ n → take m (take n xs) ≡ take m xs
  take-take zero n xs h = refl
  take-take (suc m) zero xs h = absurd (omega (arith, h))
  take-take (suc m) (suc n) [] h = refl
  take-take (suc m) (suc n) (x ∷ xs) h =
      ap (λ (l : List A). x ∷ l) (take-take m n xs (omega (arith, h)))

  last_of-shorter :
      (n : ℕ) (x : A) (xs : List A) → n ≤ length xs → last_of n (x ∷ xs) ≡ last_of n xs
  unfolding last_of
  last_of-shorter n x xs h =
      let one : suc (length xs) - n ≡ suc (length xs - n) = omega (arith, h) in
      elim (Bool-cases (ltb n (length xs))) [
        | inl e ↦ ground (arith, one)
        | inr k ↦ let zero_left : length xs - n ≡ 0 = ground arith in ground (arith, one, zero_left)
      ]

  length-reverse_native : (xs : List A) → length (reverse xs) ≡ length xs
  length-reverse_native [] = refl
  length-reverse_native (x ∷ xs) =
      rw (reverse-cons x xs)
        (omega (arith, length-append (reverse xs) (x ∷ []), length-reverse_native xs))

  last_of-empty : (n : ℕ) → last_of {A = A} n [] ≡ []
  unfolding last_of
  last_of-empty n = ground arith

  reverse-last_of : (n : ℕ) (xs : List A) → reverse (last_of n xs) ≡ take n (reverse xs)
  unfolding last_of
  reverse-last_of zero [] = refl
  reverse-last_of (suc n) [] = rw (last_of-empty (suc n)) refl
  reverse-last_of n (x ∷ xs) = elim (Bool-cases (leb n (length xs))) [
    | inl e ↦
        rw
          (
            last_of-shorter n x xs (ground arith),
            reverse-cons x xs,
            take-append_long n (reverse xs) (x ∷ []) (ground (arith, length-reverse_native xs)),
          )
          (reverse-last_of n xs)
    | inr k ↦
        let whole : last_of n (x ∷ xs) ≡ x ∷ xs = ground arith in
        rw (whole)
          (sym (take-all n (reverse (x ∷ xs)) (ground (arith, length-reverse_native (x ∷ xs)))))
  ]

  take-cons_take : (n : ℕ) (x : A) (xs : List A) → take n (x ∷ take n xs) ≡ take n (x ∷ xs)
  take-cons_take zero x xs = refl
  take-cons_take (suc n) x xs = ap (λ (l : List A). x ∷ l) (take-take n (suc n) xs (omega arith))

  length-take-le : (n : ℕ) (xs : List A) → length (take n xs) ≤ n
  length-take-le zero xs = omega arith
  length-take-le (suc n) [] = omega arith
  length-take-le (suc n) (x ∷ xs) = omega (arith, length-take-le n xs)

  length-last_of : (n : ℕ) (xs : List A) → length (last_of n xs) ≤ n
  length-last_of n xs = omega (
    arith,
    length-reverse_native (last_of n xs),
    ap (λ (l : List A). length l) (reverse-last_of n xs),
    length-take-le n (reverse xs),
  )

-- The resolutions with the times at which they come in, the latest one first, in front of some others.
abbrev pub newest : List (ℕ × Resolution) → List Resolution → List Resolution
newest [] older = older
newest ((now, e) ∷ es) older = newest es (timed_at now e ∷ older)

abbrev pub record_all : List (ℕ × Resolution) → Live → Live
record_all [] live = live
record_all ((now, e) ∷ es) live = record_all es (record_dashboard_resolution now e live)

take-newest :
    (n : ℕ) (es : List (ℕ × Resolution)) (older : List Resolution)
    → take n (newest es (take n older)) ≡ take n (newest es older)
take-newest n [] older = take-take n n older (omega arith)
take-newest n ((now, e) ∷ es) older =
    let t = timed_at now e in
    sym (take-newest n es (t ∷ take n older))
    ∙ ap (λ (l : List Resolution). take n (newest es l)) (take-cons_take n t older)
    ∙ take-newest n es (t ∷ older)

-- One more resolution in the log, read from its end.
reverse-append_log :
    (cap : ℕ) (e : Resolution) (log : List Resolution)
    → reverse (append_log cap e log) ≡ take cap (e ∷ reverse log)
unfolding append_log
reverse-append_log cap e log =
    reverse-last_of cap (log ++ e ∷ [])
    ∙ ap (λ (l : List Resolution). take cap l) (reverse-append log (e ∷ []))

log-newest :
    (es : List (ℕ × Resolution)) (live : Live)
    → length live.log ≤ dashboard_log_cap live
    → reverse (record_all es live).log
      ≡ take (dashboard_log_cap live) (newest es (reverse live.log))
unfolding record_dashboard_resolution dashboard_log_cap append_log
log-newest [] live h = sym (
    take-all (dashboard_log_cap live) (reverse live.log)
      (omega (arith, h, length-reverse_native live.log)))
log-newest ((now, e) ∷ es) live h =
    let cap = dashboard_log_cap live in
    let t = timed_at now e in
    log-newest es (record_dashboard_resolution now e live) (length-last_of cap (live.log ++ t ∷ []))
    ∙ ap (λ (l : List Resolution). take cap (newest es l)) (reverse-append_log cap t live.log)
    ∙ take-newest cap es (t ∷ reverse live.log)

cap-record_all :
    (es : List (ℕ × Resolution)) (live : Live)
    → dashboard_log_cap (record_all es live) ≡ dashboard_log_cap live
unfolding dashboard_log_cap record_dashboard_resolution
cap-record_all [] live = refl
cap-record_all ((now, e) ∷ es) live = cap-record_all es (record_dashboard_resolution now e live)

-- After any resolutions have been recorded on a log that is not longer than its cap, the log
-- shows, newest first, the latest resolutions: those recorded, with the time at which they came in
-- where they have none, and then those that were there, as many as the limit and the cap allow.
pub get_dashboard_log_newest_first_lem :
    (n : ℤ) (es : List (ℕ × Resolution)) (live : Live)
    → length live.log ≤ dashboard_log_cap live
    → get_dashboard_log_newest_first n (record_all es live)
      ≡ take (min (limit_of n) (dashboard_log_cap live)) (newest es (reverse live.log))
unfolding get_dashboard_log_newest_first
get_dashboard_log_newest_first_lem n es live h =
    let cap = dashboard_log_cap live in
    rw (cap-record_all es live, log-newest es live h)
      (take-take (min (limit_of n) cap) cap (newest es (reverse live.log)) (omega arith))
