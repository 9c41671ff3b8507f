-- ===== src/Cluster/Serve/Guarded.antt =====
-- cluster/cluster.go: what a connection can do without the token of the cluster, and what without
-- that of the admin.
use dnsplane.Base.{
  ◌≡◌, refl, sym, ◌∙◌, Bool, true, false, ◌&&◌, ◌||◌, not, List, [], ◌∷◌, none, some, arith, all,
  any, is_empty, Bool-cases, Option-cases, inl, inr,
}
use dnsplane.Text.{Text, codes, text_eq, trim_space}
use dnsplane.Cluster.Wire.{
  AuthMessage, AdminConfigApplyMessage, CarriesSimple, type_auth_fail, type_error,
}
use dnsplane.Cluster.Applied.{receive-reject}
use dnsplane.Cluster.Manager.{Manager, Env, Settings, apply_admin_config}
use dnsplane.Cluster.Serve.{
  simple, auth_of, admin_of, records_of, is_refused, serve_conn, serve_frame, serve_frames,
  serve_admin, serve_records, receive_records, is_ping, is_pull,
}

-- The settings, those of the store included, and the peers that are dialed.
unfoldable pub SameSettings : Manager → Manager → Type 0
SameSettings m n =
    (n.settings ≡ m.settings)
    × (n.effective_peers ≡ m.effective_peers)
    × (n.dns.cluster_reject_local_writes ≡ m.dns.cluster_reject_local_writes)

module _ {ℓ} {F : Type ℓ} (env : Env F) where
  -- The first frame is an auth message with the trimmed token of the settings, and there is one.
  unfoldable pub is_authorized : Manager → List F → Bool
  is_authorized m [] = false
  is_authorized m (f ∷ fs) = elim (auth_of env f) [
    | none ↦ false
    | some auth ↦
        let token = trim_space m.settings.auth_token in
        not (is_empty token) && text_eq auth.token token
  ]

  unfoldable pub is_refusal : F → Bool
  is_refusal f =
      let t = (env.json.decode_simple f).1.type in text_eq t type_error || text_eq t type_auth_fail

  refused_first :
      (m : Manager) (f : F) (fs : List F) (auth : AuthMessage)
      → auth_of env f ≡ some auth
      → is_refused m auth ≡ false
      → ¬ (is_authorized m (f ∷ fs) ≡ false)
  unfolding is_authorized is_refused
  refused_first m f fs auth e n h =
      let token = trim_space m.settings.auth_token in
      let k : is_authorized m (f ∷ fs) ≡ not (is_empty token) && text_eq auth.token token =
        rw (is_authorized, e) refl in
      ground arith

  -- A connection whose first frame is not an auth message with the trimmed token of the settings,
  -- and any connection where that token is empty, leaves the manager as it is, and all that is
  -- written to it are errors and refusals. JSON carries a message of ASCII text unchanged.
  pub serve_conn-unauthorized :
      (remote : Text) (written : Bool) (frames : List F) (m : Manager)
      → CarriesSimple env.json
      → is_authorized m frames ≡ false
      → ((serve_conn env remote written frames m).0 ≡ m)
        × (all is_refusal (serve_conn env remote written frames m).1 ≡ true)
  unfolding is_authorized serve_conn is_refusal simple text_eq
  serve_conn-unauthorized remote written [] m c h = (refl, refl)
  serve_conn-unauthorized remote written (f ∷ fs) m c h = elim (Option-cases (auth_of env f)) [
    | inl e ↦
        rw (serve_conn, e)
          (
            refl,
            rw (c (record { type = type_error; message = codes "auth required" }) refl refl) refl,
          )
    | inr (auth, e) ↦ elim (Bool-cases (is_refused m auth)) [
      | inl r ↦
          rw (serve_conn, e, r)
            (
              refl,
              rw (c (record { type = type_auth_fail; message = codes "unauthorized" }) refl refl)
                  refl,
            )
      | inr n ↦ absurd (refused_first m f fs auth e n h)
    ]
  ]

  -- A frame that is the message of an admin with the token of the settings, which have one.
  unfoldable pub is_admin_frame : Settings → F → Bool
  is_admin_frame cfg f = elim (admin_of env f) [
    | none ↦ false
    | some msg ↦
        not (is_empty (trim_space cfg.admin_token)) && text_eq msg.admin_token cfg.admin_token
  ]

  apply_admin_config-denied :
      (msg : AdminConfigApplyMessage) (m : Manager)
      → not (is_empty (trim_space m.settings.admin_token))
          && text_eq msg.admin_token m.settings.admin_token
        ≡ false
      → (apply_admin_config env msg m).1 ≡ m
  unfolding apply_admin_config
  apply_admin_config-denied msg m h =
      elim (Bool-cases (is_empty (trim_space m.settings.admin_token))) [
        | inl e ↦ rw e refl
        | inr n ↦ elim (Bool-cases (text_eq msg.admin_token m.settings.admin_token)) [
          | inl e ↦ absurd (ground arith)
          | inr k ↦ rw (n, k) refl
        ]
      ]

  SameSettings-serve_frame :
      (remote : Text) (f : F) (m : Manager)
      → is_admin_frame m.settings f ≡ false
      → SameSettings m (serve_frame env remote f m).0
  unfolding is_admin_frame SameSettings serve_frame serve_records
  SameSettings-serve_frame remote f m h = elim (Bool-cases (is_ping env f)) [
    | inl e ↦ rw (serve_frame, e) (refl, refl, refl)
    | inr n ↦ elim (Bool-cases (is_pull env f)) [
      | inl e ↦ rw (serve_frame, n, e) (refl, refl, refl)
      | inr k ↦ elim (Option-cases (admin_of env f)) [
        | inl a ↦ elim (Option-cases (records_of env f)) [
          | inl r ↦ rw (serve_frame, n, k, a, r) (refl, refl, refl)
          | inr (msg, r) ↦
              rw (serve_frame, n, k, a, r)
                (
                  refl,
                  refl,
                  unfold receive_records in receive-reject env m.settings.policy msg m.state m.dns,
                )
        ]
        | inr (msg, a) ↦
            rw (serve_frame, n, k, a)
              (let e : is_admin_frame m.settings f
                    ≡ not (is_empty (trim_space m.settings.admin_token))
                      && text_eq msg.admin_token m.settings.admin_token =
                  rw (is_admin_frame, a) refl in
                unfold serve_admin in
                rw (apply_admin_config-denied msg m (sym e ∙ h)) (refl, refl, refl))
      ]
    ]
  ]

  SameSettings-serve_frames :
      (remote : Text) (fs : List F) (m : Manager)
      → any (is_admin_frame m.settings) fs ≡ false
      → SameSettings m (serve_frames env remote fs m).0
  unfolding serve_frames SameSettings
  SameSettings-serve_frames remote [] m h = (refl, refl, refl)
  SameSettings-serve_frames remote (f ∷ fs) m h =
      let m1 = (serve_frame env remote f m).0 in
      let first : SameSettings m m1 = SameSettings-serve_frame remote f m (ground arith) in
      let none_left : any (is_admin_frame m1.settings) fs ≡ false = rw first.0 (ground arith) in
      let rest : SameSettings m1 (serve_frames env remote fs m1).0 =
        SameSettings-serve_frames remote fs m1 none_left in
      (rest.0 ∙ first.0, rest.1 ∙ first.1, rest.2 ∙ first.2)

  -- A connection none of whose frames is the message of an admin with the admin token of the
  -- settings, and any connection where that token is blank, leaves the settings, the peers that
  -- are dialed, and whether local writes are rejected as they are, whatever else its frames are.
  pub serve_conn-SameSettings :
      (remote : Text) (written : Bool) (frames : List F) (m : Manager)
      → any (is_admin_frame m.settings) frames ≡ false
      → SameSettings m (serve_conn env remote written frames m).0
  unfolding SameSettings serve_conn
  serve_conn-SameSettings remote written [] m h = (refl, refl, refl)
  serve_conn-SameSettings remote written (f ∷ fs) m h = elim (Option-cases (auth_of env f)) [
    | inl e ↦ rw (serve_conn, e) (refl, refl, refl)
    | inr (auth, e) ↦ elim (Bool-cases (is_refused m auth)) [
      | inl r ↦ rw (serve_conn, e, r) (refl, refl, refl)
      | inr n ↦ elim (Bool-cases written) [
        | inl w ↦ rw (serve_conn, e, n, w) (SameSettings-serve_frames remote fs m (ground arith))
        | inr w ↦ rw (serve_conn, e, n, w) (refl, refl, refl)
      ]
    ]
  ]
