-- ===== src/Auth/Throttle.antt =====
-- internal/auth/service.go: the throttle of logins, `isBlocked` and `recordFailure`.
use ialbum.Base.{
  ℕ, ◌+◌, ◌-◌, ◌*◌, ◌≤◌, ◌<◌, ◌≡◌, refl, false, List, Option, none, some, arith, All, if◌then◌else◌,
  leb, Bool-cases, Option-cases, inl, inr,
}
use ialbum.Text.{Text}
use ialbum.Time.{Time, minute}
use ialbum.Sql.{find, delete}
use ialbum.Sql.Laws.{All-select, All-find}
use ialbum.Auth.Password.{Crypto}
use ialbum.Auth.{
  Attempt, Service, User, clear_failure, attempt_of, is_before, is_blocked, longer_since,
  note_failure, record_failure, login, login_key, credentials, new_session, has_attempt_key,
}

-- Of a blocked time, the last attempt and the count of tries: there are 20 tries at most, the
-- block ends 16 minutes behind the last attempt at the latest, and from 5 tries on it ends as many
-- minutes behind it as there are tries beyond 4.
abbrev pub IsPaced : Option Time → Option Time → ℕ → Type 0
IsPaced none none n = n ≡ 0
IsPaced none (some t) n = n < 5
IsPaced (some b) none n = ⊥
IsPaced (some b) (some t) n = (n ≤ 20) × (b ≤ t + 16 * minute) × (5 ≤ n → b ≡ t + (n - 4) * minute)

abbrev pub IsThrottled : Attempt → Type 0
IsThrottled a = IsPaced a.blocked_until a.last_attempt a.tries

-- The block that a failure sets, by the count that it reaches.
block :
    (now : Time) (b : Option Time) (n : ℕ)
    → n ≤ 20
    → is_before now b ≡ false
    → IsPaced (if leb 5 n then some (now + (n - 4) * minute) else b) (some now) n
block now none n h f = elim (Bool-cases (leb 5 n)) [
  | inl e ↦ rw e (h, ground arith, λ _. refl)
  | inr e ↦ rw e (ground arith)
]
block now (some b) n h f = elim (Bool-cases (leb 5 n)) [
  | inl e ↦ rw e (h, ground arith, λ _. refl)
  | inr e ↦ rw e (h, ground arith, λ l. absurd (ground arith))
]

-- A failure that is not blocked counts 20 at most: after 20, 16 minutes have passed.
tries_bound :
    (now : Time) (b l : Option Time) (n : ℕ)
    → IsPaced b l n
    → is_before now b ≡ false
    → (if longer_since (15 * minute) now l then 0 else n) + 1 ≤ 20
tries_bound now none none n h f = ground arith
tries_bound now none (some t) n h f = ground arith
tries_bound now (some b) none n h f = absurd h
tries_bound now (some b) (some t) n h f = ground arith

module _ (crypto : Crypto) where
  attempt_of-IsThrottled :
      (key : Text) (rows : List Attempt)
      → All IsThrottled rows
      → IsThrottled (attempt_of crypto key rows)
  attempt_of-IsThrottled key rows h = elim (Option-cases (find (has_attempt_key crypto key) rows)) [
    | inl e ↦ rw (e, attempt_of) refl
    | inr (a, e) ↦ rw (e, attempt_of) (All-find IsThrottled (has_attempt_key crypto key) rows e h)
  ]

  note_paced :
      (now : Time) (key : Text) (a : Attempt)
      → IsPaced a.blocked_until a.last_attempt a.tries
      → is_before now a.blocked_until ≡ false
      → IsThrottled (note_failure crypto now key a)
  unfolding note_failure
  note_paced now key a h f =
      block now a.blocked_until _ (tries_bound now a.blocked_until a.last_attempt a.tries h f) f

  record_failure-IsThrottled :
      (now : Time) (key : Text) (rows : List Attempt)
      → All IsThrottled rows
      → is_blocked crypto now key rows ≡ false
      → All IsThrottled (record_failure crypto now key rows)
  unfolding record_failure is_blocked delete
  record_failure-IsThrottled now key rows h f = (
    note_paced now key (attempt_of crypto key rows) (attempt_of-IsThrottled key rows h) f,
    All-select IsThrottled _ rows h,
  )

  attempts-new_session :
      (now : Time) (u : User) (s : Service) → (new_session crypto now u s).0.attempts ≡ s.attempts
  unfolding new_session
  attempts-new_session now u s = ground arith

  -- A login that runs alone keeps the throttle of every key within its bounds: 20 tries at most are counted, and a
  -- key is blocked until 16 minutes behind its last attempt at the latest.
  login-IsThrottled :
      (now : Time) (username password remote : Text) (s : Service)
      → All IsThrottled s.attempts
      → All IsThrottled (login crypto now username password remote s).0.attempts
  unfolding login delete
  login-IsThrottled now username password remote s h =
      elim (Bool-cases (is_blocked crypto now (login_key crypto username remote) s.attempts)) [
        | inl e ↦ rw (e, login) h
        | inr e ↦ elim (Option-cases (credentials crypto username password s)) [
          | inl c ↦ rw (e, login) (rw c (record_failure-IsThrottled now _ s.attempts h e))
          | inr (u, c) ↦
              rw (e, login)
                (rw c (
                  rw
                    (attempts-new_session now u (record s {
                      attempts = clear_failure crypto (login_key crypto username remote) s.attempts;
                    }))
                    (All-select IsThrottled _ s.attempts h)))
        ]
      ]
