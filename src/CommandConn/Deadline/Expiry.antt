-- ===== src/CommandConn/Deadline/Expiry.antt =====
-- When a connection with deadlines is closed, and what closing it does.
use ssh_roundrobin.Prelude.{
  ℕ, ◌≤◌, ◌<◌, ◌≡◌, ◌↔◌, ◌⊎◌, inl, inr, none, some, refl, ◌∙◌, ap, true, false, List, [], ◌∷◌, leb,
  arith, if◌then◌else◌, Bool-cases,
}
use mathlib.Core.Path.{ap₂}
use ssh_roundrobin.Env.{Env}
use ssh_roundrobin.CommandConn.{CommandConn, close}
use ssh_roundrobin.CommandConn.Deadline.{
  Timed, set_deadline, set_read_deadline, set_write_deadline, Event, sets, sets_read, sets_write,
  closes, reaches, close_timed, fire, happen, happen_each,
}

-- The clock reaches `t` in the course of the events.
abbrev pub Reaches : ℕ → List Event → Type 0
Reaches t [] = ⊥
Reaches t (reaches now ∷ es) = (t ≤ now) ⊎ Reaches t es
Reaches t (_ ∷ es) = Reaches t es

-- A deadline other than the zero time is reached.
abbrev pub Expires : ℕ → List Event → Type 0
Expires t es = (0 < t) × Reaches t es

-- The events end the connection: it is closed, or a deadline is reached after it has been set.
abbrev pub Ends : List Event → Type 0
Ends [] = ⊥
Ends (sets t ∷ es) = Expires t es ⊎ Ends es
Ends (sets_read t ∷ es) = Expires t es ⊎ Ends es
Ends (sets_write t ∷ es) = Expires t es ⊎ Ends es
Ends (closes ∷ es) = Unit
Ends (reaches now ∷ es) = Ends es

-- One of the times is reached.
abbrev AnyReached : List ℕ → List Event → Type 0
AnyReached [] es = ⊥
AnyReached (t ∷ ts) es = Reaches t es ⊎ AnyReached ts es

-- Only the clock reaches times.
abbrev Unclocked : Event → Type 0
Unclocked (reaches now) = ⊥
Unclocked _ = Unit

Reaches-Unclocked :
    (t : ℕ) (e : Event) (es : List Event) → Unclocked e → Reaches t (e ∷ es) ↔ Reaches t es
Reaches-Unclocked t (sets u) es h = (λ r. r, λ r. r)
Reaches-Unclocked t (sets_read u) es h = (λ r. r, λ r. r)
Reaches-Unclocked t (sets_write u) es h = (λ r. r, λ r. r)
Reaches-Unclocked t closes es h = (λ r. r, λ r. r)
Reaches-Unclocked t (reaches now) es h = absurd h

AnyReached-Unclocked :
    (ts : List ℕ) (e : Event) (es : List Event)
    → Unclocked e
    → AnyReached ts (e ∷ es) ↔ AnyReached ts es
AnyReached-Unclocked [] e es h = (λ r. r, λ r. r)
AnyReached-Unclocked (t ∷ ts) e es h =
    ground (arith, Reaches-Unclocked t e es h, AnyReached-Unclocked ts e es h)

none_reached : (ts : List ℕ) → AnyReached ts [] → ⊥
none_reached [] h = h
none_reached (t ∷ ts) h = elim h [ inl a ↦ a | inr b ↦ none_reached ts b ]

module _ {W : Type 0} (env : Env W) where
  -- `fire` from the timers `ts` at `now`: closed if one is due, the others kept.
  fire-closed :
      (now : ℕ) (ts : List ℕ) (c : Timed W)
      → ((fire env now ts c).conn.closed ≡ true)
        ↔ ((c.conn.closed ≡ true) ⊎ AnyReached ts (reaches now ∷ []))
  unfolding fire close_timed close
  fire-closed now [] c = (λ h. inl h, λ h. elim h [ inl a ↦ a | inr b ↦ absurd b ])
  fire-closed now (t ∷ ts) c = ground (arith, fire-closed now ts c)

  fire-timers :
      (now : ℕ) (ts : List ℕ) (es : List Event) (c : Timed W)
      → AnyReached ts (reaches now ∷ es)
        ↔ (AnyReached ts (reaches now ∷ []) ⊎ AnyReached (fire env now ts c).timers es)
  unfolding fire close_timed
  fire-timers now [] es c = (λ h. absurd h, λ h. elim h [ inl a ↦ absurd a | inr b ↦ absurd b ])
  fire-timers now (t ∷ ts) es c = elim (Bool-cases (leb t now)) [
    | inl due ↦ rw due (ground (arith, fire-timers now ts es c, due))
    | inr not_yet ↦ rw not_yet (ground (arith, fire-timers now ts es c, not_yet))
  ]

  happen_each-closed :
      (es : List Event) (c : Timed W)
      → ((happen_each env es c).conn.closed ≡ true)
        ↔ ((c.conn.closed ≡ true) ⊎ AnyReached c.timers es ⊎ Ends es)
  unfolding happen_each happen set_deadline set_read_deadline set_write_deadline close_timed close
  happen_each-closed [] c = (
    λ h. inl h,
    λ h. elim h [
      | inl a ↦ a
      | inr (inl r) ↦ absurd (none_reached c.timers r)
      | inr (inr e) ↦ absurd e
    ],
  )
  happen_each-closed (sets t ∷ es) c = ground (
    arith,
    happen_each-closed es (set_deadline t c),
    AnyReached-Unclocked c.timers (sets t) es tt,
  )
  happen_each-closed (sets_read t ∷ es) c = ground (
    arith,
    happen_each-closed es (set_read_deadline t c),
    AnyReached-Unclocked c.timers (sets_read t) es tt,
  )
  happen_each-closed (sets_write t ∷ es) c = ground (
    arith,
    happen_each-closed es (set_write_deadline t c),
    AnyReached-Unclocked c.timers (sets_write t) es tt,
  )
  happen_each-closed (closes ∷ es) c = ground (arith, happen_each-closed es (close_timed env c))
  happen_each-closed (reaches now ∷ es) c = ground (
    arith,
    happen_each-closed es (fire env now c.timers c),
    fire-closed now c.timers c,
    fire-timers now c.timers es c,
  )

  close_again : (c : CommandConn) (w : W) → c.closed ≡ true → close env c w ≡ (c, w)
  unfolding close
  close_again c w h = rw h refl

  close-closed : (c : CommandConn) (w : W) → (close env c w).0.closed ≡ true
  unfolding close
  close-closed c w = ground arith

  -- Both pipes are closed, and then the process, if it has started, is killed and awaited.
  abbrev pub ended_once : CommandConn → W → W
  ended_once conn w =
      let piped = env.close_stdout conn.command (env.close_stdin conn.command w) in
      elim conn.process [
        | none ↦ piped
        | some process ↦ env.wait_process process (env.kill_process process piped)
      ]

  close-ended_once :
      (conn : CommandConn) (w : W) → conn.closed ≡ false → (close env conn w).1 ≡ ended_once conn w
  unfolding close
  close-ended_once conn w h = rw h refl

  module _ (conn : CommandConn) (w : W) (fresh : conn.closed ≡ false) where
    -- `c` is `conn` in the world `w`, or what one `Close` makes of both.
    abbrev Once : Timed W → Type 0
    Once c =
        ((c.conn ≡ conn) × (c.world ≡ w))
        ⊎ ((c.conn ≡ (close env conn w).0) × (c.world ≡ (close env conn w).1))

    close_timed-Once : (c : Timed W) → Once c → Once (close_timed env c)
    unfolding close_timed
    close_timed-Once c (inl (a, b)) =
        inr (ap₂ (λ c w. (close env c w).0) a b, ap₂ (λ c w. (close env c w).1) a b)
    close_timed-Once c (inr (a, b)) =
        let done = close_again c.conn c.world (ap (λ c. c.closed) a ∙ close-closed conn w) in
        inr (ap (λ p. p.0) done ∙ a, ap (λ p. p.1) done ∙ b)

    fire-Once : (now : ℕ) (ts : List ℕ) (c : Timed W) → Once c → Once (fire env now ts c)
    unfolding fire
    fire-Once now [] c o = o
    fire-Once now (t ∷ ts) c o = elim (Bool-cases (leb t now)) [
      | inl due ↦ rw due (close_timed-Once (fire env now ts c) (fire-Once now ts c o))
      | inr not_yet ↦ rw not_yet (fire-Once now ts c o)
    ]

    happen-Once : (e : Event) (c : Timed W) → Once c → Once (happen env e c)
    unfolding happen set_deadline set_read_deadline set_write_deadline
    happen-Once (sets t) c o = ground arith
    happen-Once (sets_read t) c o = ground arith
    happen-Once (sets_write t) c o = ground arith
    happen-Once closes c o = close_timed-Once c o
    happen-Once (reaches now) c o = fire-Once now c.timers c o

    happen_each-Once : (es : List Event) (c : Timed W) → Once c → Once (happen_each env es c)
    unfolding happen_each
    happen_each-Once [] c o = o
    happen_each-Once (e ∷ es) c o = happen_each-Once es (happen env e c) (happen-Once e c o)

    -- A new connection is closed after a sequence of events exactly when one of them was a close or a
    -- deadline other than the zero time was reached after it had been set; a later deadline, or the
    -- zero time, takes none back. Until then the world is untouched; a connection that is closed has had
    -- its pipes closed, and then its process, if it had started, killed and awaited, all of it once.
    pub happen_each-Ends :
        (es : List Event)
        → let c = happen_each env es (record { conn = conn; timers = []; world = w }) in
          ((c.conn.closed ≡ true) ↔ Ends es)
          × (c.world ≡ (if c.conn.closed then ended_once conn w else w))
    happen_each-Ends es =
        let c : Timed W = happen_each env es (record { conn = conn; timers = []; world = w }) in
        let ends = happen_each-closed es (record { conn = conn; timers = []; world = w }) in
        (
          (
            λ h. elim (ends.0 h) [
              | inl x ↦ absurd (ground (arith, x, fresh))
              | inr (inl r) ↦ absurd r
              | inr (inr e) ↦ e
            ],
            λ e. ends.1 (inr (inr e)),
          ),
          elim (happen_each-Once es (record { conn = conn; timers = []; world = w })
              (inl (refl, refl))) [
                | inl (a, b) ↦ rw (ap (λ c. c.closed) a ∙ fresh) b
                | inr (a, b) ↦
                    rw (ap (λ c. c.closed) a ∙ close-closed conn w)
                      (b ∙ close-ended_once conn w fresh)
              ],
        )
