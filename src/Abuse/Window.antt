-- ===== src/Abuse/Window.antt =====
-- abuse/sliding.go: the responses that a client gets in a window, and the size of the map.
use dnsplane.Base.{
  ℕ, suc, ◌+◌, ◌-◌, ◌<◌, ◌≡◌, Bool, true, ◌&&◌, ◌||◌, not, List, [], ◌∷◌, none, some, arith, length,
  min, ltb, if◌then◌else◌, Bool-cases, inl, inr, all, count_if,
}
use dnsplane.Text.{Text, text_eq}
use dnsplane.Text.Equality.{text_eq_iff}
use dnsplane.Text.Dict.{get, get-put, length-put_new}
use dnsplane.Abuse.{Entry, Limiter, is_over, under_cap, sliding_allow, bumped, record_response}

-- A query of a client at a time.
pub record Query : Type 0 where
  pub ip : Text
  pub now : ℕ

-- ServeDNS answers, and counts the response, exactly where Allow allows it.
unfoldable pub serve : Limiter → Query → Limiter
serve s q = if sliding_allow s q.now q.ip then record_response s q.now q.ip else s

-- How many queries of the client are answered.
unfoldable pub answered : Text → Limiter → List Query → ℕ
answered ip s [] = 0
answered ip s (q ∷ qs) =
    let rest = answered ip (serve s q) qs in
    if text_eq q.ip ip && sliding_allow s q.now q.ip then suc rest else rest

-- Every query of the client comes before the entry's window is over.
abbrev pub in_window : Text → ℕ → List Query → Bool
in_window ip end qs = all (λ q. not (text_eq q.ip ip) || ltb q.now end) qs

serve_config :
    (s : Limiter) (q : Query)
    → ((serve s q).max_per_window ≡ s.max_per_window) × ((serve s q).window ≡ s.window)
unfolding serve record_response
serve_config s q = ground arith

-- What a query does to the client's entry.
serve-entry :
    (s : Limiter) (q : Query) (ip : Text) (e : Entry)
    → 0 < s.max_per_window
    → get ip s.entries ≡ some e
    → not (text_eq q.ip ip) || ltb q.now (e.start + s.window) ≡ true
    → get ip (serve s q).entries
      ≡ some (record e {
        count = if text_eq q.ip ip && ltb e.count s.max_per_window then e.count + 1 else e.count;
      })
unfolding serve record_response sliding_allow bumped is_over under_cap
serve-entry s q ip e pos there in_time = elim (Bool-cases (text_eq q.ip ip)) [
  | inr other ↦ ground (arith, get-put q.ip ip (bumped s q.now (get q.ip s.entries)) s.entries)
  | inl same ↦
      let here : get q.ip s.entries ≡ some e = rw ((text_eq_iff q.ip ip).0 same) there in
      ground (arith, here, get-put q.ip ip (bumped s q.now (get q.ip s.entries)) s.entries)
]

allowed-entry :
    (s : Limiter) (q : Query) (e : Entry)
    → 0 < s.max_per_window
    → get q.ip s.entries ≡ some e
    → ltb q.now (e.start + s.window) ≡ true
    → sliding_allow s q.now q.ip ≡ ltb e.count s.max_per_window
unfolding sliding_allow under_cap is_over
allowed-entry s q e pos there in_time = ground arith

-- While the window of an entry of a client lasts, the client gets answers to as many of its
-- queries as are left of the cap, and to all of them if they are fewer, whatever the other clients
-- ask. The cap is not 0, and every query of the client comes before the end of the window.
pub answered_lem :
    (ip : Text) (s : Limiter) (e : Entry) (qs : List Query)
    → 0 < s.max_per_window
    → get ip s.entries ≡ some e
    → in_window ip (e.start + s.window) qs ≡ true
    → answered ip s qs ≡ min (count_if (λ q. text_eq q.ip ip) qs) (s.max_per_window - e.count)
unfolding answered
answered_lem ip s e [] pos there w = ground arith
answered_lem ip s e (q ∷ qs) pos there w =
    let (max_same, window_same) = serve_config s q in
    let in_time : not (text_eq q.ip ip) || ltb q.now (e.start + s.window) ≡ true = ground arith in
    let later : in_window ip (e.start + s.window) qs ≡ true = ground arith in
    let e' = record e {
      count = if text_eq q.ip ip && ltb e.count s.max_per_window then e.count + 1 else e.count;
    } in
    let rest =
      answered_lem ip (serve s q) e' qs (rw max_same pos) (serve-entry s q ip e pos there in_time)
        (rw window_same later) in
    elim (Bool-cases (text_eq q.ip ip)) [
      | inr other ↦ ground arith
      | inl same ↦
          let here : get q.ip s.entries ≡ some e = rw ((text_eq_iff q.ip ip).0 same) there in
          ground (arith, allowed-entry s q e pos here (ground arith))
    ]

-- A client that the map does not hold is answered and added, whatever the number of entries and
-- whatever their most, if the cap is not 0.
record_response-grows :
    (s : Limiter) (q : Query)
    → 0 < s.max_per_window
    → get q.ip s.entries ≡ none
    → (sliding_allow s q.now q.ip ≡ true) × (length (serve s q).entries ≡ suc (length s.entries))
unfolding serve sliding_allow under_cap record_response
record_response-grows s q pos lacks =
    ground (arith, length-put_new q.ip (bumped s q.now none) s.entries lacks)
