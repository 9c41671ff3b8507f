-- ===== src/UpstreamHealth/Threshold.antt =====
-- data/upstream_health.go: how many failures in a row take an upstream down.
use dnsplane.Base.{
  ℕ, zero, suc, ◌≡◌, refl, ap, ◌∙◌, false, ◌&&◌, not, [], ◌∷◌, Option, none, some, arith, leb, ◌==◌,
}
use dnsplane.Text.{Text}
use dnsplane.Text.Equality.{text_eq_refl}
use dnsplane.Text.Dict.{get, get-put}
use dnsplane.UpstreamHealth.{
  Entry, Tracker, entry_at, ensure, is_down, is_unhealthy, record_forward_success,
  threshold_or_default, failed_entry, probe_fail,
}

-- `n` failing probes of the key, one after the other.
unfoldable pub fail_times : ℕ → ℕ → Text → Text → ℕ → Tracker → Tracker
fail_times zero now key err threshold t = t
fail_times (suc n) now key err threshold t =
    (probe_fail now key err threshold (fail_times n now key err threshold t)).0

module _ (now : ℕ) (c : ℕ) (k : Text) (err : Text) (threshold : ℕ) where
  abbrev key : Text
  key = c ∷ k

  after_success_at :
      (before : ℕ) (t : Tracker)
      → ensure key (record_forward_success before key t)
        ≡ record (ensure key t) { unhealthy = false; failures = 0; last_err = []; last_ok = before }
  unfolding ensure record_forward_success entry_at
  after_success_at before t = rw (get-put key key _ t, text_eq_refl key)

  after_fail :
      (t : Tracker)
      → ensure key (probe_fail now key err threshold t).0
        ≡ failed_entry now err threshold (ensure key t)
  unfolding ensure probe_fail entry_at
  after_fail t = rw (get-put key key _ t, text_eq_refl key)

  counted :
      (n : ℕ) (t : Tracker)
      → (ensure key t).unhealthy ≡ false
      → (ensure key t).failures ≡ 0
      → let e = ensure key (fail_times n now key err threshold t) in
        (e.failures ≡ n) × (e.unhealthy ≡ leb (threshold_or_default threshold) n)
  unfolding fail_times failed_entry threshold_or_default
  counted zero t u f = (f, u ∙ ground arith)
  counted (suc n) t u f =
      let (fails, down) = counted n t u f in
      rw (after_fail (fail_times n now key err threshold t)) (ground arith)

  down-ensure : (t : Tracker) → is_unhealthy t key ≡ (ensure key t).unhealthy
  unfolding is_unhealthy ensure
  down-ensure t = by_cases (get key t)
    where
      by_cases : (o : Option Entry) → is_down o ≡ (entry_at o).unhealthy
      by_cases none = unfold is_down entry_at in refl
      by_cases (some e) = unfold is_down entry_at in refl

  -- After a success of an upstream whose key is not empty and `n` failing probes of it, the
  -- upstream counts as down exactly when `n` is at least the threshold (3 in place of 0), and one
  -- more failing probe reports that it has gone down exactly when it is the one that reaches the
  -- threshold.
  pub fail_times-after_success :
      (n : ℕ) (before : ℕ) (t : Tracker)
      → let failed = fail_times n now key err threshold (record_forward_success before key t) in
        (is_unhealthy failed key ≡ leb (threshold_or_default threshold) n)
        × ((probe_fail now key err threshold failed).1 ≡ (suc n == threshold_or_default threshold))
  unfolding probe_fail
  fail_times-after_success n before t =
      let start = record_forward_success before key t in
      let failed = fail_times n now key err threshold start in
      let fresh = after_success_at before t in
      let (fails, down) =
        counted n start (ap (λ (e : Entry). e.unhealthy) fresh)
          (ap (λ (e : Entry). e.failures) fresh) in
      (down-ensure failed ∙ down, reported (ensure key failed) n fails down)
    where
      reported :
          (e : Entry) (n : ℕ)
          → e.failures ≡ n
          → e.unhealthy ≡ leb (threshold_or_default threshold) n
          → ((failed_entry now err threshold e).unhealthy && not e.unhealthy)
            ≡ (suc n == threshold_or_default threshold)
      reported e n f u = unfold failed_entry threshold_or_default in ground arith
