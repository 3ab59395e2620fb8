-- ===== src/Judge/Errors.antt =====
-- How an execution that fails is named: `python_exception_name`, `signal_name` and
-- `classify_runtime_error` of backend/src/problem-judge.cpp. An exit code is not negative: the
-- executors give 0 to 255, or 128 and a signal.
use trainer.Prelude.{
  ℕ, ◌-◌, Bool, false, ◌&&◌, ◌||◌, ◌++◌, Option, none, some, List, [], ◌∷◌, Bytes, codes, nat_eq,
  byte_eq, ◌==◌, if◌then◌else◌, leb, ends_with, contains_bytes, decimal, all_of, is_empty, not,
}

-- backend/include/algorithm-trainer/executor.h
pub record ExecutionResult : Type 0 where
  pub exit_code : ℕ
  pub standard_output : Bytes
  pub standard_error : Bytes
  pub timed_out : Bool
  pub error_type : Option Bytes

onto_first : ℕ → List Bytes → List Bytes
onto_first c [] = (c ∷ []) ∷ []
onto_first c (line ∷ lines) = (c ∷ line) ∷ lines

-- The lines that the loop walks through: `find('\n', start)` while `start < size`.
unfoldable pub lines_of : Bytes → List Bytes
unfolding onto_first
lines_of [] = []
lines_of (c ∷ cs) = let rest = lines_of cs in if c == b'\n' then [] ∷ rest else onto_first c rest

abbrev is_space : ℕ → Bool
is_space c = c == 32 || (leb 9 c && leb c 13)

abbrev is_alnum : ℕ → Bool
is_alnum c =
    (leb b'0' c && leb c b'9') || ((leb b'A' c && leb c b'Z') || (leb b'a' c && leb c b'z'))

abbrev pub is_word : ℕ → Bool
is_word c = is_alnum c || c == b'_'

skip_spaces : Bytes → Bytes
skip_spaces [] = []
skip_spaces (c ∷ cs) = let rest = skip_spaces cs in if is_space c then rest else c ∷ cs

before_colon : Bytes → Bytes
before_colon [] = []
before_colon (c ∷ cs) = let rest = before_colon cs in if c == b':' then [] else c ∷ rest

-- The part of a line that is tested.
unfoldable pub line_name : Bytes → Bytes
unfolding skip_spaces before_colon
line_name line = before_colon (skip_spaces line)

unfoldable pub names_exception : Bytes → Bool
names_exception name =
    (not (is_empty name) && all_of is_word name)
    && (ends_with (codes "Error") name || ends_with (codes "Exception") name)

unfoldable pub first_exception : List Bytes → Option Bytes
unfolding line_name names_exception
first_exception [] = none
first_exception (line ∷ lines) =
    let rest = first_exception lines in
    if names_exception (line_name line) then some (line_name line) else rest

unfoldable pub python_exception_name : Bytes → Option Bytes
unfolding first_exception lines_of
python_exception_name error = first_exception (lines_of error)

unfoldable pub signal_name : ℕ → Bytes
signal_name signal =
    if signal == 11
    then codes "SIGSEGV"
    else if signal == 6
    then codes "SIGABRT"
    else if signal == 4
    then codes "SIGILL"
    else if signal == 8
    then codes "SIGFPE"
    else if signal == 9
    then codes "SIGKILL"
    else if signal == 15
    then codes "SIGTERM"
    else codes "signal " ++ decimal signal

abbrev is_name : Option Bytes → Bytes → Bool
is_name none name = false
is_name (some x) name = x == name

-- The tests behind those of the exit codes 120 and 127.
classify_by_text : ExecutionResult → Option Bytes → Bytes
classify_by_text execution exception =
    if is_name exception (codes "MemoryError")
      || contains_bytes (codes "std::bad_alloc") execution.standard_error
    then codes "Memory Limit Exceeded"
    else if is_name exception (codes "SyntaxError")
        || (is_name exception (codes "IndentationError") || is_name exception (codes "TabError"))
    then codes "Syntax Error"
    else elim exception [
      | some name ↦ codes "Exception: " ++ name
      | none ↦
          if leb 128 execution.exit_code
          then codes "Terminated by " ++ signal_name (execution.exit_code - 128)
          else codes "Runtime Error"
    ]

-- The `RuntimeError` is its type.
unfoldable pub classify_runtime_error : ExecutionResult → Bytes
unfolding classify_by_text python_exception_name signal_name
classify_runtime_error execution = elim execution.error_type [
  | some error_type ↦ error_type
  | none ↦
      if execution.exit_code == 120
      then codes "Output Limit Exceeded"
      else if execution.exit_code == 127
      then codes "Sandbox Runtime Error"
      else classify_by_text execution (python_exception_name execution.standard_error)
]
