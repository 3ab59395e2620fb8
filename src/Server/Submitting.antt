-- ===== src/Server/Submitting.antt =====
-- Which requests reach the service, and what their answer says.
use trainer.Prelude.{
  ℕ, ◌≡◌, ◌∙◌, ap, ◌⊎◌, refl, inl, inr, true, Bool-cases, Option-cases, Result-cases, Option, none,
  some, Bytes, ok, Result,
}
use trainer.Submission.{SubmissionRequest}
use trainer.Problem.{Problem}
use trainer.Auth.{AuthUser, AuthError}
use trainer.Service.{Submitted}
use trainer.Validation.{Json, extracted, validate_submission}
use trainer.Validation.Accepting.{IsSubmission, validate_submission_iff}
use trainer.Server.{Response, offers, respond, owner_of, submit_owned, submit_valid, submit}

module _ {J S : Type 0} (library : Json J) (find_problem : Bytes → Result Bytes (Option Problem))
    (current_user : Bytes → Result AuthError AuthUser)
    (submit_submission : SubmissionRequest → S → Submitted × S) (token : Bytes) (s : S) where
  -- The service is not asked.
  pub record Refused (out : Response × S) : Type 0 where
    pub status : (out.0.status ≡ 400) ⊎ (out.0.status ≡ 500)
    pub unchanged : out.1 ≡ s

  -- The service is asked for this submission, and its result is the response.
  pub record Forwarded (submission : SubmissionRequest) (out : Response × S) : Type 0 where
    pub problem : Problem
    pub owner : Option ℕ
    pub found : find_problem submission.problem_id ≡ ok (some problem)
    pub offered : offers submission.language problem.languages ≡ true
    pub owned : owner_of current_user token ≡ some owner
    pub answered : out.0 ≡ respond (submit_submission (record submission { user_id = owner }) s).0
    pub left : out.1 ≡ (submit_submission (record submission { user_id = owner }) s).1

  submit_valid_lem :
      (submission : SubmissionRequest)
      → Refused
          (submit_valid library find_problem current_user submit_submission token submission s)
        ⊎ Forwarded submission
            (submit_valid library find_problem current_user submit_submission token submission s)
  unfolding submit_valid submit_owned
  submit_valid_lem submission = elim (Result-cases (find_problem submission.problem_id)) [
    | inr (m, e) ↦ inl (rw (e, submit_valid) (record { status = inr refl; unchanged = refl }))
    | inl (o, e) ↦ elim (Option-cases o) [
      | inl q ↦ inl (rw (e, q, submit_valid) (record { status = inl refl; unchanged = refl }))
      | inr (problem, q) ↦ elim (Bool-cases (offers submission.language problem.languages)) [
        | inr t ↦ inl (rw (e, q, submit_valid, t) (record { status = inl refl; unchanged = refl }))
        | inl t ↦ elim (Option-cases (owner_of current_user token)) [
          | inl w ↦ inl (
              rw (e, q, submit_valid, t, w, submit_owned)
                (record { status = inr refl; unchanged = refl }))
          | inr (owner, w) ↦ inr (
              rw (e, q, submit_valid, t, w, submit_owned)
                (record {
                  problem = problem;
                  owner = owner;
                  found = e ∙ ap ok q;
                  offered = t;
                  owned = w;
                  answered = refl;
                  left = refl;
                }))
        ]
      ]
    ]
  ]

  -- A request is refused with status 400 or 500 and the service is not asked; or the body is a
  -- valid submission to a problem that is found and offers its language, the owner of the session
  -- is known or there is none, and the service is asked once, with that owner, and answers.
  pub submit_lem :
      (body : Option J)
      → Refused (submit library find_problem current_user submit_submission body token s)
        ⊎ ((json : J) × (body ≡ some json)
            × IsSubmission library json
            × Forwarded
                (extracted library json)
                (submit library find_problem current_user submit_submission body token s))
  unfolding submit
  submit_lem none = inl (record { status = inl refl; unchanged = refl })
  submit_lem (some json) = elim (Result-cases (validate_submission library json)) [
    | inr (m, e) ↦ inl (rw (e, submit) (record { status = inl refl; unchanged = refl }))
    | inl (r, e) ↦
        let (same, valid) = (validate_submission_iff library json r).0 e in
        elim (submit_valid_lem (extracted library json)) [
          | inl refused ↦ inl (rw (e, same, submit) refused)
          | inr forwarded ↦ inr (json, refl, valid, rw (e, same, submit) forwarded)
        ]
  ]
