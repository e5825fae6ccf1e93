-- ===== src/ServerStatus/History.antt =====
-- Every entry as a function of the reports so far.
use ssh_roundrobin.Prelude.{
  ℕ, ◌+◌, ◌%◌, ◌^◌, ◌≡◌, refl, sym, subst, ap, Option-cases, Bool, true, false, Option, none, some,
  List, [], ◌∷◌, arith, length, if◌then◌else◌, ltb, not, Bool-cases, inl, inr, ℤ,
}
use ssh_roundrobin.Text.{Text, Error, text_eq, text_eq_iff}
use ssh_roundrobin.Dict
use ssh_roundrobin.Dict.{is_some}
use ssh_roundrobin.Env.{Env}
use ssh_roundrobin.ServerStatus.{
  ServerStatusTracker, ServerStatusEntry, new_server_status_tracker, new_entry, entry_or,
  status_success, status_fail, record_success, record_fail, get_entry, get_or_create_entry,
  succeeded, failed,
}

-- A call of the tracker with an address: `RecordSuccess`, or `RecordFail` with its error or nil.
pub record Report : Type 0 where
  pub addr : Text
  pub result : Option (Option Error)

module _ {W : Type 0} (env : Env W) where
  -- The call itself.
  abbrev pub report : Report → ServerStatusTracker × W → ServerStatusTracker × W
  report r (t, w) = elim r.result [
    | none ↦ record_success env r.addr t w
    | some e ↦ record_fail env r.addr e t w
  ]

  -- The tracker after the reports of a list that begins with the latest.
  abbrev pub after : List Report → ServerStatusTracker × W → ServerStatusTracker × W
  after [] s = s
  after (r ∷ rs) s = report r (after rs s)

-- The results reported for one upstream, the latest first.
abbrev pub results_of : Text → List Report → List (Option (Option Error))
results_of a [] = []
results_of a (r ∷ rs) =
    let rest = results_of a rs in if text_eq r.addr a then r.result ∷ rest else rest

-- How many results pass a test, and how many do before the first that does not.
abbrev pub count_if : (Option (Option Error) → Bool) → List (Option (Option Error)) → ℕ
count_if f [] = 0
count_if f (r ∷ rs) = let rest = count_if f rs in if f r then rest + 1 else rest

abbrev pub run_of : (Option (Option Error) → Bool) → List (Option (Option Error)) → ℕ
run_of f [] = 0
run_of f (r ∷ rs) = let rest = run_of f rs in if f r then rest + 1 else 0

abbrev pub failure : Option (Option Error) → Bool
failure none = false
failure (some e) = true

abbrev pub latest_error : List (Option (Option Error)) → Text
latest_error [] = []
latest_error (none ∷ rs) = []
latest_error (some none ∷ rs) = latest_error rs
latest_error (some (some e) ∷ rs) = e

pub record Summary (rs : List (Option (Option Error))) (e : ServerStatusEntry) : Type 0 where
  pub status : e.status ≡ (if ltb 0 (run_of failure rs) then status_fail else status_success)
  pub consecutive_ok : e.consecutive_ok ≡ run_of (λ r. not (failure r)) rs
  pub consecutive_fail : e.consecutive_fail ≡ run_of failure rs
  pub total_success : e.total_success ≡ count_if (λ r. not (failure r)) rs % 2 ^ 64
  pub total_fail : e.total_fail ≡ count_if failure rs % 2 ^ 64
  pub last_error : e.last_error ≡ latest_error rs

succeeded-Summary :
    (now : ℕ) (rs : List (Option (Option Error))) (e : ServerStatusEntry)
    → Summary rs e
    → Summary (none ∷ rs) (succeeded now e)
unfolding succeeded
succeeded-Summary now rs e s = record {
  status = refl;
  consecutive_ok = omega (arith, s.consecutive_ok);
  consecutive_fail = refl;
  total_success = omega (arith, s.total_success);
  total_fail = s.total_fail;
  last_error = refl;
}

failed-Summary :
    (now : ℕ) (x : Option Error) (rs : List (Option (Option Error))) (e : ServerStatusEntry)
    → Summary rs e
    → Summary (some x ∷ rs) (failed now x e)
unfolding failed
failed-Summary now (some x) rs e s = record {
  status = ground arith;
  consecutive_ok = refl;
  consecutive_fail = omega (arith, s.consecutive_fail);
  total_success = s.total_success;
  total_fail = omega (arith, s.total_fail);
  last_error = refl;
}
failed-Summary now none rs e s = record {
  status = ground arith;
  consecutive_ok = refl;
  consecutive_fail = omega (arith, s.consecutive_fail);
  total_success = s.total_success;
  total_fail = omega (arith, s.total_fail);
  last_error = s.last_error;
}

abbrev applied : ℕ → Option (Option Error) → ServerStatusEntry → ServerStatusEntry
applied now none e = succeeded now e
applied now (some x) e = failed now x e

applied-Summary :
    (now : ℕ) (r : Option (Option Error)) (rs : List (Option (Option Error)))
    (e : ServerStatusEntry)
    → Summary rs e
    → Summary (r ∷ rs) (applied now r e)
applied-Summary now none rs e s = succeeded-Summary now rs e s
applied-Summary now (some x) rs e s = failed-Summary now x rs e s

-- A report changes the entry of its address and no other.
report-entry :
    {W : Type 0} (env : Env W) (r : Report) (t : ServerStatusTracker) (w : W) (a : Text)
    → get_entry (report env r (t, w)).0 a ≡ (
        if text_eq r.addr a
        then some (applied (env.now w).0 r.result (get_or_create_entry r.addr t))
        else get_entry t a)
unfolding get_entry record_success record_fail
report-entry env r t w a = elim (Option-cases r.result) [
  | inl h ↦ rw h (Dict.get-put t.entries r.addr _ a)
  | inr (e, h) ↦ rw h (Dict.get-put t.entries r.addr _ a)
]

created :
    (b a : Text) (t : ServerStatusTracker)
    → text_eq b a ≡ true
    → entry_or a (get_entry t a) ≡ get_or_create_entry b t
unfolding get_entry get_or_create_entry
created b a t h = ap (λ c. entry_or c (Dict.get t.entries c)) (sym ((text_eq_iff b a).0 h))

-- After any reports to a new tracker, an address has an entry exactly when it was reported, and
-- the entry agrees with the results for that address alone: the status is that of the
-- latest, the error that of the latest one that was a success, which has none, or that had an error, the consecutive counts are the lengths of the latest run of successes and of
-- failures, and the totals count all of them, modulo 2^64.
pub get_entry-Summary :
    {W : Type 0} (env : Env W) (path : Text) (log : Bool) (interval : ℤ) (a : Text) (w : W)
    (rs : List Report)
    → let told = (after env rs (new_server_status_tracker path log interval, w)).0 in
      (is_some (get_entry told a) ≡ ltb 0 (length (results_of a rs)))
      × Summary (results_of a rs) (entry_or a (get_entry told a))
get_entry-Summary env path log interval a w [] =
    unfold new_server_status_tracker get_entry in
    rw (Dict.get-empty {V = ServerStatusEntry} a) (
      refl,
      unfold new_entry in
          record {
            status = refl;
            consecutive_ok = refl;
            consecutive_fail = refl;
            total_success = refl;
            total_fail = refl;
            last_error = refl;
          },
    )
get_entry-Summary env path log interval a w (r ∷ rs) =
    let before = after env rs (new_server_status_tracker path log interval, w) in
    let (known, summed) = get_entry-Summary env path log interval a w rs in
    elim (Bool-cases (text_eq r.addr a)) [
      | inr h ↦ rw (report-entry env r before.0 before.1 a, h) (known, summed)
      | inl h ↦
          rw (report-entry env r before.0 before.1 a, h)
            (
              ground arith,
              applied-Summary (env.now before.1).0 r.result (results_of a rs)
                  (get_or_create_entry r.addr before.0)
                  (subst (Summary (results_of a rs)) (created r.addr a before.0 h) summed),
            )
    ]
