-- ===== src/Status.antt =====
-- The status words of plans, tasks, jobs, agent runs and intakes
-- (backend/internal/domain/models.go). `other` is any string that the code does not name.
use specrelay.Prelude.{
  ℕ, ◌≡◌, ◌↔◌, Bool, true, ◌&&◌, [], arith, Eq, Text, text, text_beq, text_beq_iff, nat_beq,
}

pub data Status : Type 0 where
  generating ready running validating blocked cancelling completed failed interrupted : Status
  cancelled pending queued succeeded leased retry_wait starting timed_out : Status
  open_status planning planned plan_failed closed : Status
  other : Text → Status

code : Status → ℕ
code generating = 0
code ready = 1
code running = 2
code validating = 3
code blocked = 4
code cancelling = 5
code completed = 6
code failed = 7
code interrupted = 8
code cancelled = 9
code pending = 10
code queued = 11
code succeeded = 12
code leased = 13
code retry_wait = 14
code starting = 15
code timed_out = 16
code open_status = 17
code planning = 18
code planned = 19
code plan_failed = 20
code closed = 21
code (other s) = 22

payload : Status → Text
payload (other s) = s
payload _ = []

unfoldable pub status_beq : Status → Status → Bool
unfolding code payload text_beq
status_beq a b = nat_beq (code a) (code b) && text_beq (payload a) (payload b)

pub status_beq_iff : (a b : Status) → (status_beq a b ≡ true) ↔ (a ≡ b)
unfolding status_beq
status_beq_iff a b = ground (arith, text_beq_iff (payload a) (payload b))

instance abbrev pub status_eq : Eq Status
status_eq = record { beq = status_beq; beq_iff = status_beq_iff }

-- The word that is stored.
unfoldable pub status_text : Status → Text
status_text generating = text "generating"
status_text ready = text "ready"
status_text running = text "running"
status_text validating = text "validating"
status_text blocked = text "blocked"
status_text cancelling = text "cancelling"
status_text completed = text "completed"
status_text failed = text "failed"
status_text interrupted = text "interrupted"
status_text cancelled = text "cancelled"
status_text pending = text "pending"
status_text queued = text "queued"
status_text succeeded = text "succeeded"
status_text leased = text "leased"
status_text retry_wait = text "retry_wait"
status_text starting = text "starting"
status_text timed_out = text "timed_out"
status_text open_status = text "open"
status_text planning = text "planning"
status_text planned = text "planned"
status_text plan_failed = text "plan_failed"
status_text closed = text "closed"
status_text (other s) = s
