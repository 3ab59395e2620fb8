-- ===== src/Submission/Names.antt =====
-- The decoders of rows on what the printers give, and back.
use trainer.Prelude.{
  ◌≡◌, refl, inl, inr, some, Bytes, codes, bytes_beq, bytes_beq_iff, ok, Option-cases, arith,
}
use trainer.Submission.{
  Verdict, accepted, wrong_answer, runtime_error, time_limit_exceeded, SubmissionStatus, queued,
  running, completed, failed, SubmissionRecord, verdict_name,
}
use trainer.Submission.Columns.{parse_verdict, parse_status, read_record, stored_status, columns}

pub parse-verdict_name : (v : Verdict) → parse_verdict (verdict_name v) ≡ some v
unfolding parse_verdict verdict_name codes bytes_beq
parse-verdict_name accepted = refl
parse-verdict_name wrong_answer = refl
parse-verdict_name runtime_error = refl
parse-verdict_name time_limit_exceeded = refl

-- A text that is read as a verdict is that verdict's name.
pub parse_verdict-inverse :
    (text : Bytes) (v : Verdict) → parse_verdict text ≡ some v → text ≡ verdict_name v
unfolding parse_verdict verdict_name
parse_verdict-inverse text v h = ground (
  arith,
  bytes_beq_iff text (codes "Accepted"),
  bytes_beq_iff text (codes "Wrong Answer"),
  bytes_beq_iff text (codes "Runtime Error"),
  bytes_beq_iff text (codes "Time Limit Exceeded"),
)

pub parse-stored_status : (s : SubmissionStatus) → parse_status (stored_status s) ≡ some s
unfolding parse_status stored_status codes bytes_beq
parse-stored_status queued = refl
parse-stored_status running = refl
parse-stored_status completed = refl
parse-stored_status failed = refl

-- Every row that the database holds is read back as it was written.
pub read_record-columns : (r : SubmissionRecord) → read_record (columns r) ≡ ok r
unfolding read_record columns
read_record-columns r = elim (Option-cases r.verdict) [
  | inl e ↦ ground (arith, parse-stored_status r.status)
  | inr (v, e) ↦ ground (arith, parse-stored_status r.status, parse-verdict_name v)
]
