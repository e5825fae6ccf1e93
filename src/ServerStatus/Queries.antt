-- ===== src/ServerStatus/Queries.antt =====
-- `GetDeprioritized` and `SeedTargetFailures`: the upstreams that fail again and again.
use ssh_roundrobin.Prelude.{
  ℕ, ◌≡◌, ◌≤◌, ◌↔◌, Bool, true, Option, none, some, arith, leb, ℤ, positive_or, positive_or-pos,
}
use ssh_roundrobin.Prelude.{◌<◌, ap, ◌∙◌, Option-cases, inl, inr}
use ssh_roundrobin.Text.{Text}
use ssh_roundrobin.Dict
use ssh_roundrobin.Dict.{has_text, is_some, kept}
use ssh_roundrobin.ServerStatus.{
  ServerStatusTracker, ServerStatusEntry, get_entry, get_deprioritized, seed_target_failures,
}

-- The number of failures in a row on record for an address, 0 for an unknown one.
abbrev pub fails_in_row : Option ServerStatusEntry → ℕ
fails_in_row none = 0
fails_in_row (some e) = e.consecutive_fail

-- `GetDeprioritized` lists exactly the addresses with at least the threshold of failures in a row,
-- and `SeedTargetFailures` maps exactly these to their number of failures in a row. A threshold that
-- is not positive counts as 5.
pub get_deprioritized_lem :
    (threshold : ℤ) (t : ServerStatusTracker) (a : Text)
    → ((has_text a (get_deprioritized threshold t) ≡ true)
        ↔ (positive_or 5 threshold ≤ fails_in_row (get_entry t a)))
      × ((n : ℕ)
          → (Dict.get (seed_target_failures threshold t) a ≡ some n)
            ↔ ((positive_or 5 threshold ≤ n) × (fails_in_row (get_entry t a) ≡ n)))
unfolding get_deprioritized seed_target_failures get_entry
get_deprioritized_lem threshold t a = elim (Option-cases (Dict.get t.entries a)) [
  | inl h ↦ (ground (arith, h, at_least, listed), λ n. ground (arith, h, at_least, seeded))
  | inr (e, h) ↦ (ground (arith, h, at_least, listed), λ n. ground (arith, h, at_least, seeded))
]
  where
    at_least : 0 < positive_or 5 threshold
    at_least = positive_or-pos 5 threshold (omega arith)

    fits : ServerStatusEntry → Bool
    fits e = leb (positive_or 5 threshold) e.consecutive_fail

    listed :
        has_text a (Dict.keys (Dict.collect fits (λ e. e) t.entries))
        ≡ is_some (kept fits (λ e. e) (Dict.get t.entries a))
    listed =
        Dict.has_text-keys (Dict.collect fits (λ e. e) t.entries) a
        ∙ ap is_some (Dict.get-collect fits (λ e. e) t.entries a)

    seeded :
        Dict.get (Dict.collect fits (λ e. e.consecutive_fail) t.entries) a
        ≡ kept fits (λ e. e.consecutive_fail) (Dict.get t.entries a)
    seeded = Dict.get-collect fits (λ e. e.consecutive_fail) t.entries a
