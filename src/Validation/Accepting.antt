-- ===== src/Validation/Accepting.antt =====
-- Which bodies `validate_submission` accepts.
use trainer.Prelude.{
  ◌≡◌, ◌≤◌, ◌↔◌, ◌⊎◌, refl, inl, inr, true, false, Bool-cases, Bytes, codes, length, ok, arith,
  byte_eq, ◌==◌, bytes_beq_iff, is_empty, [], ◌∷◌,
}
use trainer.Submission.{SubmissionRequest}
use trainer.Validation.{
  Json, check_request, first_not_string, extracted, validate_submission, maximum_code_size,
}

-- The limits that a request keeps.
pub record IsSupported (request : SubmissionRequest) : Type 0 where
  pub some_problem : 1 ≤ length request.problem_id
  pub short_problem : length request.problem_id ≤ 128
  pub known_language : (request.language ≡ codes "python") ⊎ (request.language ≡ codes "cpp")
  pub some_code : 1 ≤ length request.code
  pub short_code : length request.code ≤ maximum_code_size

not_empty : (xs : Bytes) → (is_empty xs ≡ false) ↔ (1 ≤ length xs)
not_empty [] = (λ h. ground (arith, h), λ h. ground (arith, h))
not_empty (x ∷ xs) = (λ h. omega arith, λ h. refl)

check_request_lem :
    (request r : SubmissionRequest)
    → (check_request request ≡ ok r) ↔ ((r ≡ request) × IsSupported request)
unfolding check_request
check_request_lem request r = (
  λ h. (
    ground (arith, h),
    record {
      some_problem = ground (arith, h, not_empty request.problem_id);
      short_problem = ground (arith, h);
      known_language = elim (Bool-cases (request.language == codes "python")) [
        | inl t ↦ inl ((bytes_beq_iff _ _).0 t)
        | inr t ↦ inr ((bytes_beq_iff _ _).0 (ground (arith, h, t)))
      ];
      some_code = ground (arith, h, not_empty request.code);
      short_code = ground (arith, h);
    },
  ),
  λ (e, v). ground (
    arith,
    e,
    v.short_problem,
    v.short_code,
    (not_empty request.problem_id).1 v.some_problem,
    (not_empty request.code).1 v.some_code,
    v.known_language,
    bytes_beq_iff request.language (codes "python"),
    bytes_beq_iff request.language (codes "cpp"),
  ),
)

module _ {J : Type 0} (library : Json J) where
  open library use {is_object, is_member, member, is_string}

  abbrev pub IsText : J → Bytes → Type 0
  IsText json field = (is_member json field ≡ true) × (is_string (member json field) ≡ true)

  -- A JSON object whose three fields are texts within the limits.
  pub record IsSubmission (json : J) : Type 0 where
    pub object : is_object json ≡ true
    pub problem_text : IsText json (codes "problemId")
    pub language_text : IsText json (codes "language")
    pub code_text : IsText json (codes "code")
    pub supported : IsSupported (extracted library json)

  -- A body is accepted exactly if it is a JSON object whose fields problemId, language and code are
  -- strings, with a problem id of 1 to 128 bytes, one of the two languages and a code of 1 to
  -- 65536 bytes; the request that is returned has these fields and no user.
  pub validate_submission_iff :
      (json : J) (r : SubmissionRequest)
      → (validate_submission library json ≡ ok r)
        ↔ ((r ≡ extracted library json) × IsSubmission json)
  unfolding validate_submission first_not_string
  validate_submission_iff json r = (
    λ h. (
      (checked h).0,
      record {
        object = ground (arith, h);
        problem_text = (ground (arith, h), ground (arith, h));
        language_text = (ground (arith, h), ground (arith, h));
        code_text = (ground (arith, h), ground (arith, h));
        supported = (checked h).1;
      },
    ),
    λ (e, v). ground (
      arith,
      v.object,
      v.problem_text,
      v.language_text,
      v.code_text,
      (check_request_lem (extracted library json) r).1 (e, v.supported),
    ),
  )
    where
      checked :
          validate_submission library json ≡ ok r
          → (r ≡ extracted library json) × IsSupported (extracted library json)
      checked h = (check_request_lem (extracted library json) r).0 (ground (arith, h))
