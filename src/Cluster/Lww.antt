-- ===== src/Cluster/Lww.antt =====
-- cluster/state.go: the register of the last global snapshot. A snapshot is named by its time and
-- its node.
use dnsplane.Base.{
  ◌≡◌, refl, sym, true, false, ◌&&◌, ◌||◌, not, arith, inl, inr, Bool-cases, if◌then◌else◌,
}
use dnsplane.Base.Int.{ℤ, pos, negsuc}
use dnsplane.Text.{Text, text_eq, text_lt, trim_space}
use dnsplane.Text.Equality.{text_eq_iff, text_eq→eq, text_lt_irrefl, text_lt_trans, text_lt_total}
use dnsplane.Cluster.{
  StateManager, lt_int, is_zero, floor_ts, should_accept_global_lww, commit_global_lww,
}

-- shouldAcceptGlobalLWW and then commitGlobalLWW
unfoldable pub offer : ℤ → Text → StateManager → StateManager
offer ts id s = if should_accept_global_lww s ts id then commit_global_lww ts id s else s

-- After a commit a snapshot is accepted exactly when its time is later than the committed one, or
-- the same and its node greater. A time below 1 counts as 1, and node names are compared without
-- the spaces around them.
should_accept-commit_global_lww :
    (s : StateManager) (t u : ℤ) (a b : Text)
    → should_accept_global_lww (commit_global_lww t a s) u b
      ≡ lt_int (floor_ts t) (floor_ts u)
        || (not (lt_int (floor_ts u) (floor_ts t)) && text_lt (trim_space a) (trim_space b))
unfolding should_accept_global_lww commit_global_lww is_zero floor_ts lt_int
should_accept-commit_global_lww s (pos t) (pos u) a b = ground arith
should_accept-commit_global_lww s (pos t) (negsuc u) a b = ground arith
should_accept-commit_global_lww s (negsuc t) (pos u) a b = ground arith
should_accept-commit_global_lww s (negsuc t) (negsuc u) a b = ground arith

is_zero-floor_ts : (t : ℤ) → is_zero (floor_ts t) ≡ false
unfolding is_zero floor_ts lt_int
is_zero-floor_ts (pos t) = ground arith
is_zero-floor_ts (negsuc t) = refl

lt_int_asym : (x y : ℤ) → lt_int x y ≡ true → lt_int y x ≡ false
unfolding lt_int
lt_int_asym (pos m) (pos n) h = ground arith
lt_int_asym (pos m) (negsuc n) h = ground arith
lt_int_asym (negsuc m) (pos n) h = refl
lt_int_asym (negsuc m) (negsuc n) h = ground arith

lt_int_total : (x y : ℤ) → lt_int x y ≡ false → lt_int y x ≡ false → x ≡ y
unfolding lt_int
lt_int_total (pos m) (pos n) h k = ground arith
lt_int_total (pos m) (negsuc n) h k = ground arith
lt_int_total (negsuc m) (pos n) h k = ground arith
lt_int_total (negsuc m) (negsuc n) h k = ground arith

lt_int_trans : (x y z : ℤ) → lt_int x y ≡ true → lt_int y z ≡ true → lt_int x z ≡ true
unfolding lt_int
lt_int_trans (pos m) (pos n) (pos o) h k = ground arith
lt_int_trans (pos m) (pos n) (negsuc o) h k = ground arith
lt_int_trans (pos m) (negsuc n) z h k = ground arith
lt_int_trans (negsuc m) y (pos o) h k = refl
lt_int_trans (negsuc m) (pos n) (negsuc o) h k = ground arith
lt_int_trans (negsuc m) (negsuc n) (negsuc o) h k = ground arith

-- What the register refuses it also refuses after a commit that it accepted.
refused_after :
    (s : StateManager) (t u : ℤ) (a b : Text)
    → should_accept_global_lww s t a ≡ true
    → should_accept_global_lww s u b ≡ false
    → should_accept_global_lww (commit_global_lww t a s) u b ≡ false
unfolding should_accept_global_lww commit_global_lww
refused_after s t u a b h k =
    let x = s.last_global_lww_unix in
    let y = floor_ts t in
    let z = floor_ts u in
    ground (
      arith,
      is_zero-floor_ts t,
      lt_int_trans x y z,
      lt_int_trans y z x,
      lt_int_asym y z,
      lt_int_asym x z,
      lt_int_asym x y,
      lt_int_total x y,
      lt_int_total y z,
      lt_int_total x z,
      text_lt_trans s.last_global_lww_node_id (trim_space a) (trim_space b),
    )

not_both :
    (s : StateManager) (t u : ℤ) (a b : Text)
    → should_accept_global_lww (commit_global_lww t a s) u b ≡ true
    → should_accept_global_lww (commit_global_lww u b s) t a ≡ false
unfolding should_accept_global_lww commit_global_lww
not_both s t u a b h = ground (
  arith,
  is_zero-floor_ts t,
  is_zero-floor_ts u,
  lt_int_asym (floor_ts t) (floor_ts u),
  lt_int_asym (floor_ts u) (floor_ts t),
  text_lt_irrefl (trim_space a),
  text_lt_trans (trim_space a) (trim_space b) (trim_space a),
)

same_commit :
    (s : StateManager) (t u : ℤ) (a b : Text)
    → floor_ts t ≡ floor_ts u
    → text_eq (trim_space a) (trim_space b) ≡ true
    → commit_global_lww t a s ≡ commit_global_lww u b s
unfolding commit_global_lww
same_commit s t u a b h k =
    rw (commit_global_lww, h, text_eq→eq (trim_space a) (trim_space b) k) refl

neither :
    (s : StateManager) (t u : ℤ) (a b : Text)
    → should_accept_global_lww (commit_global_lww t a s) u b ≡ false
    → should_accept_global_lww (commit_global_lww u b s) t a ≡ false
    → commit_global_lww t a s ≡ commit_global_lww u b s
neither s t u a b h k =
    same_commit s t u a b
      (unfold should_accept_global_lww commit_global_lww in
        ground
          (arith, is_zero-floor_ts t, is_zero-floor_ts u, lt_int_total (floor_ts t) (floor_ts u)))
      (unfold should_accept_global_lww commit_global_lww in
        ground (
          arith,
          is_zero-floor_ts t,
          is_zero-floor_ts u,
          text_eq_iff (trim_space a) (trim_space b),
          text_lt_total (trim_space a) (trim_space b),
          lt_int_asym (floor_ts t) (floor_ts u),
          lt_int_asym (floor_ts u) (floor_ts t),
        ))

both :
    (s : StateManager) (t u : ℤ) (a b : Text)
    → offer t a (commit_global_lww u b s) ≡ offer u b (commit_global_lww t a s)
unfolding offer
both s t u a b = elim (Bool-cases (should_accept_global_lww (commit_global_lww t a s) u b)) [
  | inl r ↦ rw (r, not_both s t u a b r) (unfold commit_global_lww in refl)
  | inr r ↦ elim (Bool-cases (should_accept_global_lww (commit_global_lww u b s) t a)) [
    | inl q ↦ rw (r, q) (unfold commit_global_lww in refl)
    | inr q ↦ rw (r, q) (sym (neither s t u a b r q))
  ]
]

-- Two snapshots offered to the register of the last global write, each committed if it is
-- accepted, leave the same state whichever is offered first, whatever their times and nodes and
-- whatever the register held.
pub offer_comm :
    (s : StateManager) (t u : ℤ) (a b : Text) → offer t a (offer u b s) ≡ offer u b (offer t a s)
unfolding offer
offer_comm s t u a b = elim (Bool-cases (should_accept_global_lww s t a)) [
  | inl p ↦ elim (Bool-cases (should_accept_global_lww s u b)) [
    | inl q ↦ rw (p, q) (both s t u a b)
    | inr q ↦ rw (p, q, p, refused_after s t u a b p q) refl
  ]
  | inr p ↦ elim (Bool-cases (should_accept_global_lww s u b)) [
    | inl q ↦ rw (p, q, refused_after s u t b a q p) refl
    | inr q ↦ rw (p, q, p) refl
  ]
]
