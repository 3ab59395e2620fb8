-- ===== src/Judge/Blanks.antt =====
-- `normalize_output` on outputs with white space and line ends behind them.
use trainer.Prelude.{
  ℕ, ◌≡◌, refl, sym, ap, ◌∙◌, Bool, true, ◌||◌, ◌&&◌, [], ◌∷◌, ◌++◌, Bytes, arith, nat_eq, ◌==◌,
  if◌then◌else◌, reverse, all_of, Bool-cases, inl, inr,
}
use mathlib.Core.List.{reverse-append, reverse-reverse, append-nil, append_assoc, reverse-cons}
use trainer.Judge.Output.{newlines, is_trailing_whitespace, strip, normalize_output}

-- White space that may follow an output: what is stripped, and carriage returns.
abbrev pub is_blank : ℕ → Bool
is_blank c = is_trailing_whitespace c || c == b'\r'

strip_snoc :
    (text : Bytes) (c : ℕ)
    → strip (text ++ c ∷ []) ≡ (if is_trailing_whitespace c then strip text else text ++ c ∷ [])
unfolding strip
strip_snoc text c =
    rw (reverse-append text (c ∷ [])) (elim (Bool-cases (is_trailing_whitespace c)) [
      | inl t ↦ rw t refl
      | inr t ↦
          rw t
            (reverse-cons c (reverse text) ∙ ap (λ (x : Bytes). x ++ c ∷ []) (reverse-reverse text))
    ])

strip-append :
    (text blanks : Bytes)
    → all_of is_trailing_whitespace blanks ≡ true
    → strip (text ++ blanks) ≡ strip text
unfolding all_of
strip-append text [] h = rw append-nil
strip-append text (c ∷ blanks) h =
    ap strip (sym (append_assoc text (c ∷ []) blanks))
    ∙ strip-append (text ++ c ∷ []) blanks (ground arith)
    ∙ ground (arith, strip_snoc text c)

newlines-blank :
    (blanks : Bytes)
    → all_of is_blank blanks ≡ true
    → all_of is_trailing_whitespace (newlines blanks) ≡ true
unfolding newlines all_of
newlines-blank [] h = refl
newlines-blank (c ∷ []) h = ground arith
newlines-blank (c ∷ d ∷ blanks) h =
    ground (arith, newlines-blank (d ∷ blanks), newlines-blank blanks)

-- Blanks behind a text add blanks to its lines, also where the text ends in a carriage return.
newlines-append :
    (text blanks : Bytes)
    → all_of is_blank blanks ≡ true
    → (rest : Bytes) × (newlines (text ++ blanks) ≡ newlines text ++ rest)
      × (all_of is_trailing_whitespace rest ≡ true)
unfolding newlines all_of
newlines-append [] blanks h = (newlines blanks, refl, newlines-blank blanks h)
newlines-append (c ∷ []) [] h = ([], ground arith, refl)
newlines-append (c ∷ []) (d ∷ blanks) h = (
  if c == b'\r' && d == b'\n' then newlines blanks else newlines (d ∷ blanks),
  ground arith,
  ground (arith, newlines-blank (d ∷ blanks), newlines-blank blanks),
)
newlines-append (c ∷ d ∷ text) blanks h =
    let (after, e, a) = newlines-append (d ∷ text) blanks h in
    let (skipped, f, b) = newlines-append text blanks h in
    (
      if c == b'\r' && d == b'\n' then skipped else after,
      ground (arith, e, f),
      ground (arith, a, b),
    )

-- Spaces, tabs, line ends, vertical tabs and form feeds behind an output make no difference.
pub normalize_output-append :
    (output blanks : Bytes)
    → all_of is_blank blanks ≡ true
    → normalize_output (output ++ blanks) ≡ normalize_output output
unfolding normalize_output
normalize_output-append output blanks h =
    let (rest, e, b) = newlines-append output blanks h in
    ap strip e ∙ strip-append (newlines output) rest b
