-- ===== src/Judge/Output.antt =====
-- `normalize_output` of backend/src/problem-judge.cpp.
use trainer.Prelude.{ℕ, Bool, ◌||◌, [], ◌∷◌, Bytes, nat_eq, ◌==◌, if◌then◌else◌, reverse}

-- The first loop: a carriage return becomes a line feed, and takes one that follows with it.
unfoldable pub newlines : Bytes → Bytes
newlines [] = []
newlines (c ∷ []) = if c == b'\r' then b'\n' ∷ [] else c ∷ []
newlines (c ∷ d ∷ rest) =
    let after = newlines (d ∷ rest) in
    let skipped = newlines rest in
    if c == b'\r' then b'\n' ∷ (if d == b'\n' then skipped else after) else c ∷ after

-- `trailing_whitespace`: space, tab, line feed, vertical tab and form feed.
abbrev pub is_trailing_whitespace : ℕ → Bool
is_trailing_whitespace c = c == 32 || (c == 9 || (c == 10 || (c == 11 || c == 12)))

-- The second loop, on the text read from its back.
unfoldable pub pop_trailing : Bytes → Bytes
pop_trailing [] = []
pop_trailing (c ∷ cs) =
    let rest = pop_trailing cs in if is_trailing_whitespace c then rest else c ∷ cs

unfoldable pub strip : Bytes → Bytes
unfolding pop_trailing
strip text = reverse (pop_trailing (reverse text))

unfoldable pub normalize_output : Bytes → Bytes
unfolding newlines strip
normalize_output output = strip (newlines output)
