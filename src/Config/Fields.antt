-- ===== src/Config/Fields.antt =====
-- config/config.go: what is read of a single field after it has been written.
use dnsplane.Base.{
  ◌≡◌, refl, sym, ap, Bool, true, false, ◌∷◌, List, [], Option, none, some, is_empty, Bool-cases,
  Option-cases, inl, inr, if◌then◌else◌, arith,
}
use dnsplane.Base.Int.{ℤ, pos, negsuc}
use dnsplane.Cluster.{is_zero}
use dnsplane.Text.{Text, trim_space}
use dnsplane.Config.Types.{Config, FileLocations}
use dnsplane.Config.Keys.{Values}
use dnsplane.Config.Read.{
  read, read_struct, read_either, read_bool_or_true, read_int_or, discovery_interval,
  read_file_locations, read_files, source_of, legacy_source,
}
use dnsplane.Config.Write.{omit_text, omit_int, omit_bool, omit_texts, write_files}
use dnsplane.Config.Carried.{CarriesText, CarriesInt, CarriesTexts, Carries, interval_or}

is_empty-nil : (t : Text) → is_empty t ≡ true → t ≡ []
is_empty-nil [] h = refl
is_empty-nil (x ∷ t) h = absurd cc

is_empty_texts-nil : (ts : List Text) → is_empty ts ≡ true → ts ≡ []
is_empty_texts-nil [] h = refl
is_empty_texts-nil (x ∷ ts) h = absurd cc

is_zero-zero : (n : ℤ) → is_zero n ≡ true → n ≡ pos 0
unfolding is_zero
is_zero-zero (pos n) h = ap pos (ground arith)
is_zero-zero (negsuc n) h = absurd cc

module _ {ℓ} {V : Type ℓ} (vals : Values V) where
  pub read-some {κ} :
      {A : Type κ} (decode : V → Option A) (z a : A) (v : V)
      → decode v ≡ some a
      → read decode z (some v) ≡ a
  unfolding read
  read-some decode z a v h = rw (read, h) refl

  pub read_either-some {κ} :
      {A : Type κ} (decode : V → Option A) (z a : A) (v : V) (second : Option V)
      → decode v ≡ some a
      → read_either decode z (some v) second ≡ a
  unfolding read_either
  read_either-some decode z a v second h = rw (read_either, h) refl

  pub read-omit_text : (t : Text) → CarriesText vals t → read vals.as_text [] (omit_text vals t) ≡ t
  read-omit_text t h = elim (Bool-cases (is_empty t)) [
    | inl e ↦ unfold omit_text in rw e (unfold read in sym (is_empty-nil t e))
    | inr n ↦ unfold omit_text in rw n (read-some vals.as_text [] t (vals.of_text t) h)
  ]

  pub read-omit_int : (n : ℤ) → CarriesInt vals n → read vals.as_int (pos 0) (omit_int vals n) ≡ n
  read-omit_int n h = elim (Bool-cases (is_zero n)) [
    | inl e ↦ unfold omit_int in rw e (unfold read in sym (is_zero-zero n e))
    | inr k ↦ unfold omit_int in rw k (read-some vals.as_int (pos 0) n (vals.of_int n) h)
  ]

  pub read-omit_bool :
      (b : Bool)
      → ((x : Bool) → vals.as_bool (vals.of_bool x) ≡ some x)
      → read vals.as_bool false (omit_bool vals b) ≡ b
  unfolding omit_bool
  read-omit_bool true h = read-some vals.as_bool false true (vals.of_bool true) (h true)
  read-omit_bool false h = unfold read in refl

  pub read-omit_texts :
      (ts : List Text)
      → CarriesTexts vals ts
      → read_struct vals.as_texts [] (omit_texts vals ts) ≡ ts
  read-omit_texts ts h = elim (Bool-cases (is_empty ts)) [
    | inl e ↦ unfold omit_texts in rw e (unfold read_struct in sym (is_empty_texts-nil ts e))
    | inr n ↦ unfold omit_texts in rw n (unfold read_struct in h)
  ]

  pub read_bool_or_true-omit_bool :
      (b : Bool)
      → ((x : Bool) → vals.as_bool (vals.of_bool x) ≡ some x)
      → read_bool_or_true vals (omit_bool vals b) ≡ true
  unfolding omit_bool read_bool_or_true
  read_bool_or_true-omit_bool true h =
      read-some vals.as_bool false true (vals.of_bool true) (h true)
  read_bool_or_true-omit_bool false h = refl

  pub read_int_or-omit_int :
      (absent n : ℤ)
      → CarriesInt vals n
      → read_int_or vals absent (omit_int vals n) ≡ interval_or absent n
  unfolding interval_or
  read_int_or-omit_int absent n h = elim (Bool-cases (is_zero n)) [
    | inl e ↦ unfold omit_int in rw e (unfold read_int_or in refl)
    | inr k ↦
        unfold omit_int in
        rw k (unfold read_int_or in read-some vals.as_int (pos 0) n (vals.of_int n) h)
  ]

  pub discovery_interval-omit_int :
      (srv : Text) (n : ℤ)
      → CarriesInt vals n
      → discovery_interval vals srv (omit_int vals n)
        ≡ interval_or (if is_empty (trim_space srv) then pos 0 else pos 60) n
  unfolding interval_or
  discovery_interval-omit_int srv n h = elim (Bool-cases (is_zero n)) [
    | inl e ↦ unfold omit_int in rw e (unfold discovery_interval in refl)
    | inr k ↦
        unfold omit_int in
        rw k (unfold discovery_interval in read-some vals.as_int (pos 0) n (vals.of_int n) h)
  ]

  pub source_of-write_files :
      (fl : FileLocations)
      → vals.as_source (vals.of_source fl.records_source) ≡ (true, fl.records_source)
      → source_of vals (write_files vals fl) (some (vals.of_source fl.records_source))
        ≡ fl.records_source
  unfolding source_of
  source_of-write_files fl h = elim (Option-cases fl.records_source) [
    | inl e ↦ rw (h, e) (unfold legacy_source write_files read_either read in refl)
    | inr (rs, e) ↦ rw (h, e) refl
  ]

  pub read_file_locations-write :
      (c : Config)
      → Carries vals c
      → read_file_locations vals (some (vals.of_file (write_files vals c.file_locations)))
        ≡ c.file_locations
  unfolding read_file_locations read_files write_files
  read_file_locations-write c h =
      let fl = c.file_locations in
      rw h.file_locations (λ i. record {
        dns_server_file =
            read_either-some vals.as_text [] fl.dns_server_file (vals.of_text fl.dns_server_file)
              none h.dns_server_file i;
        cache_file =
            read_either-some vals.as_text [] fl.cache_file (vals.of_text fl.cache_file) none
              h.cache_file i;
        records_source = source_of-write_files fl h.records_source i;
      })

  pub discovery_srv-then :
      (c : Config)
      → Carries vals c
      → discovery_interval vals
          (read vals.as_text [] (omit_text vals c.cluster_discovery_srv))
          (omit_int vals c.cluster_discovery_interval_seconds)
        ≡ interval_or
            (if is_empty (trim_space c.cluster_discovery_srv) then pos 0 else pos 60)
            c.cluster_discovery_interval_seconds
  discovery_srv-then c h = rw (read-omit_text c.cluster_discovery_srv h.cluster_discovery_srv) (
      discovery_interval-omit_int c.cluster_discovery_srv c.cluster_discovery_interval_seconds
        h.cluster_discovery_interval_seconds)
