-- ===== src/Manager/Flows/Answers.antt =====
-- What an answer of Baidu can do to a flow.
use ialbum.Base.{ℕ, ◌+◌, false, ◌||◌, ◌≢◌, inl, inr, ◌≡◌, refl, Bool-cases, Option-cases}
use ialbum.Text.{Text, codes, text_eq}
use ialbum.Time.{Time}
use ialbum.Manager.{
  Db, Env, FlowRow, FlowStatus, expired, declined, flow_error, authorized, storage_error,
}
use ialbum.Manager.Flows.{
  Answer, apply_answer, on_flow, assign_poll, finish_flow, authorize, is_pending, message_of,
}

-- The flow waits on, it is over without a connection, or a connection is made.
pub data Effect (env : Env) (now : Time) (f : FlowRow) (secret : Text) (a : Answer) (db : Db)
    : Db → Type 0 where
  waits_on :
      (interval : ℕ) → Effect env now f secret a db (on_flow f.id (assign_poll interval now) db)
  is_over :
      (s : FlowStatus) (message : Text)
      → is_pending s ≡ false
      → s ≢ authorized
      → Effect env now f secret a db (finish_flow f.id s message now db)
  makes : Effect env now f secret a db (authorize env now f secret a.token db)

pub apply_answer_cases :
    (env : Env) (now : Time) (f : FlowRow) (secret : Text) (a : Answer) (db : Db)
    → Effect env now f secret a db (apply_answer env now f secret a db)
unfolding apply_answer
apply_answer_cases env now f secret a db =
    elim (Bool-cases
      (text_eq a.state (codes "authorization_pending") || text_eq a.state (codes "pending"))) [
        | inl v ↦ rw (apply_answer, v) (waits_on f.poll_interval_seconds)
        | inr v ↦ elim (Bool-cases (text_eq a.state (codes "slow_down"))) [
          | inl w ↦ rw (apply_answer, v, w) (waits_on (f.poll_interval_seconds + 5))
          | inr w ↦
              elim (Bool-cases (
                text_eq a.state (codes "authorization_declined")
                || text_eq a.state (codes "access_denied"))) [
                  | inl x ↦
                      rw (apply_answer, v, w, x)
                        (is_over declined (message_of env a.error) refl (λ q. cc q))
                  | inr x ↦ elim (Bool-cases (text_eq a.state (codes "expired_token"))) [
                    | inl y ↦
                        rw (apply_answer, v, w, x, y)
                          (is_over expired (message_of env a.error) refl (λ q. cc q))
                    | inr y ↦ elim (Option-cases a.error) [
                      | inr (e, z) ↦
                          rw (apply_answer, v, w, x, y, z)
                            (is_over flow_error (env.error_text (storage_error e)) refl (λ q. cc q))
                      | inl z ↦ rw (apply_answer, v, w, x, y, z) makes
                    ]
                  ]
                ]
        ]
      ]
