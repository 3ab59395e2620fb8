-- ===== src/Lib.antt =====
-- Trainer is a web service that judges programs: a user submits source code to a problem, the
-- submission waits in a queue, and a worker runs it on the hidden tests of the problem and stores
-- the verdict. This library models that path, from the request to the verdict.
--
-- The parts. A request body is checked by `validate_submission` (backend/src/submission.cpp:
-- Validation) in the handler `submit` (backend/src/main.cpp: Server, with the handlers that look
-- submissions up and retry them, those of authentication, those of problems and the profile),
-- which asks `SubmissionService` (backend/src/submission-service.cpp: Service), which asks a
-- submission repository and notifies the workers. The repository is a table of submissions with
-- limits on active and running submissions: Sqlite models
-- backend/src/sqlite-submission-repository.cpp, Postgres models
-- backend/src/postgresql-submission-repository.cpp and the transactions of
-- backend/src/postgresql-client.cpp, Table the rows that both work on. `SubmissionWorkerPool`
-- (backend/src/submission-worker.cpp: Worker) claims submissions, has them judged by
-- `ProblemJudge` (backend/src/problem-judge.cpp: Judge) and settles them. Submission holds the
-- data they share (submission.h, submission-record.h, judge.h and submission-repository.h of
-- backend/include/algorithm-trainer), Problem that of a problem, Catalogue the problem repository
-- with its tables and the seeding (backend/src/sqlite-problem-repository.cpp), Administration the
-- forms and the limits of what administrators send (main.cpp, backend/src/problem.cpp,
-- backend/include/algorithm-trainer/admin-validation.h), Auth the users and sessions of the
-- handlers' login (backend/src/auth-service.cpp; Postgres.Accounts for
-- backend/src/postgresql-auth-service.cpp). Prelude holds shared names and lemmas, Tests runs on
-- small inputs.
--
-- How the source corresponds. A function keeps its name; an overload or a local step has a name
-- of its own, with a comment. std::variant of a value and an error is Result, std::optional is
-- Option, std::string is the list of its bytes, a 64-bit id is a natural number: ids and
-- revisions are positive in the databases, and no proof depends on their bound. A database is the
-- list of the table's rows, newest first, with the next id of AUTOINCREMENT or IDENTITY and the
-- audit log; SQL is translated clause by clause into functions on these rows. Each statement
-- takes its outcome as an argument (Outcome for SQLite; Reply and LockedReplies for PostgreSQL):
-- it works, or it fails with a message and changes nothing. A PostgreSQL transaction that fails
-- to commit is rolled back, except for the ids that it has drawn from a sequence; a connection
-- that is lost during a commit, where the server's decision is unknown, is not modelled. The JSON
-- details of an audit entry stand for their text. Time stamps are texts that are given as
-- arguments. The catalogue is the two tables of problems and of hidden tests, problems in the
-- order of their rowids; a statement that breaks a constraint of the tables fails. An
-- administrator's request takes the two lookups of the session that its handler makes. `progress`
-- takes the day of a time stamp, which the engine computes, and the day before today as
-- arguments; the queries of the PostgreSQL repository take the server's comparison of time
-- stamps, and its service of authentication the server's `lower`. The SQLite problem repository
-- reads texts up to their first NUL (column_text), and the PostgreSQL client sends them so
-- (sent). A call of the SQLite submission repository is modelled while no other thread uses its
-- connection: its `retry` is a transaction of several statements on the connection that all
-- threads share, so that what a worker does between them may be rolled back with it. A statement
-- that has returned its row is committed; where it is not, `claim_next` is claim_uncommitted. A
-- JSON value that is neither an object nor null has no members: the parsers throw on it, and
-- there is no response.
--
-- Loops are structural recursion on the tests, rows, JSON elements or bytes that they walk
-- through, so no fuel is needed. The worker's endless loop is a step function on control points,
-- in Worker.Pool, and several workers are a step relation, in Worker.Exclusion: a step is one
-- call of the repository, which a statement or a transaction makes atomic, or the settling of a
-- submission, which is one step also where it calls `complete` and then `fail`. There the
-- repository is the PostgreSQL one, whose connection lets one call at a time through, and one
-- process serves the database; `recover_running` runs at its start, before the workers.
--
-- Interfaces of the program are parameters: the executor and the problem lookup of the judge, the
-- judge and the repository of the worker (Services), the repository and the notifier of the
-- service, the JSON library (Json, JsonText, AdminJson), the session lookup of the handler. The
-- hashes of passwords and tokens and the tokens themselves are arguments of Auth. Of these only
-- the JSON library is assumed anything of, by the round trips: that it gives back what a value
-- was built from (JsonLaws, AdminLaws), and that it reads the texts of one problem back
-- (ReadsBack); Tests.JsonTrees is a library that does.
--
-- Not modelled: the processes and the sandbox of the executors
-- (backend/src/isolated-process-executor.cpp, nsjail-python-executor.cpp, judge-worker-main.cpp),
-- the texts of the default problems (backend/src/problem.cpp), which are an argument of the
-- seeding, the PostgreSQL problem repository (postgresql-problem-repository.cpp), whose tables
-- the server shapes (JSONB, its clock, its sequences), `progress` of the PostgreSQL submission
-- repository, the copying tool (sqlite-to-postgresql.cpp), the start of main.cpp, the migrations,
-- the frontend and the scripts. Logging is left out.
pub mod Administration
pub mod Auth
pub mod Catalogue
pub mod Judge
pub mod Postgres
pub mod Prelude
pub mod Problem
pub mod Server
pub mod Service
pub mod Sqlite
pub mod Submission
pub mod Table
pub mod Tests
pub mod Validation
pub mod Worker
