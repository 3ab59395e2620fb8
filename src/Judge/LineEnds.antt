-- ===== src/Judge/LineEnds.antt =====
-- `normalize_output` on outputs that differ in their line ends, and on its own results.
use trainer.Prelude.{
  ℕ, ◌≡◌, refl, sym, ap, ◌∙◌, Bool, true, [], ◌∷◌, ◌++◌, Bytes, arith, nat_eq, ◌==◌, if◌then◌else◌,
  reverse, all_of, not, Bool-cases, inl, inr,
}
use mathlib.Core.List.{reverse-reverse, reverse-cons}
use trainer.Judge.Output.{newlines, is_trailing_whitespace, pop_trailing, strip, normalize_output}

abbrev pub not_cr : ℕ → Bool
not_cr c = not (c == b'\r')

-- A text with the line ends of Windows.
unfoldable pub to_crlf : Bytes → Bytes
to_crlf [] = []
to_crlf (c ∷ cs) = let rest = to_crlf cs in if c == b'\n' then b'\r' ∷ b'\n' ∷ rest else c ∷ rest

newlines-cons : (c : ℕ) (cs : Bytes) → not_cr c ≡ true → newlines (c ∷ cs) ≡ c ∷ newlines cs
unfolding newlines
newlines-cons c [] h = ground arith
newlines-cons c (d ∷ cs) h = ground arith

newlines-to_crlf : (text : Bytes) → all_of not_cr text ≡ true → newlines (to_crlf text) ≡ text
unfolding to_crlf all_of newlines
newlines-to_crlf [] h = refl
newlines-to_crlf (c ∷ cs) h = elim (Bool-cases (c == b'\n')) [
  | inl t ↦ rw t (ground (arith, t, newlines-to_crlf cs))
  | inr t ↦ rw t (ground (arith, newlines-to_crlf cs, newlines-cons c (to_crlf cs)))
]

newlines-not_cr : (text : Bytes) → all_of not_cr (newlines text) ≡ true
unfolding all_of newlines
newlines-not_cr [] = refl
newlines-not_cr (c ∷ []) = ground arith
newlines-not_cr (c ∷ d ∷ text) = ground (arith, newlines-not_cr (d ∷ text), newlines-not_cr text)

newlines_same : (text : Bytes) → all_of not_cr text ≡ true → newlines text ≡ text
unfolding all_of
newlines_same [] h = unfold newlines in refl
newlines_same (c ∷ cs) h = ground (arith, newlines-cons c cs, newlines_same cs)

module _ (p : ℕ → Bool) where
  all_of-append :
      (xs ys : Bytes) → all_of p xs ≡ true → all_of p ys ≡ true → all_of p (xs ++ ys) ≡ true
  unfolding all_of
  all_of-append [] ys h k = k
  all_of-append (x ∷ xs) ys h k = ground (arith, all_of-append xs ys)

  all_of-reverse : (xs : Bytes) → all_of p xs ≡ true → all_of p (reverse xs) ≡ true
  unfolding all_of
  all_of-reverse [] h = refl
  all_of-reverse (x ∷ xs) h =
      rw (reverse-cons x xs)
        (all_of-append (reverse xs) (x ∷ []) (all_of-reverse xs (ground arith)) (ground arith))

  all_of-pop_trailing : (xs : Bytes) → all_of p xs ≡ true → all_of p (pop_trailing xs) ≡ true
  unfolding all_of pop_trailing
  all_of-pop_trailing [] h = refl
  all_of-pop_trailing (x ∷ xs) h = ground (arith, all_of-pop_trailing xs)

pop_trailing_idem : (xs : Bytes) → pop_trailing (pop_trailing xs) ≡ pop_trailing xs
unfolding pop_trailing
pop_trailing_idem [] = refl
pop_trailing_idem (x ∷ xs) = elim (Bool-cases (is_trailing_whitespace x)) [
  | inl t ↦ rw t (pop_trailing_idem xs)
  | inr t ↦ rw (t, pop_trailing) (rw t)
]

strip_idem : (text : Bytes) → strip (strip text) ≡ strip text
unfolding strip
strip_idem text =
    rw (reverse-reverse (pop_trailing (reverse text)))
      (ap reverse (pop_trailing_idem (reverse text)))

-- The line ends of Windows and of Unix are the same to it: a text without carriage returns, and
-- the same text with a carriage return before each line feed, are normalized alike.
pub normalize_output-to_crlf :
    (text : Bytes)
    → all_of not_cr text ≡ true
    → normalize_output (to_crlf text) ≡ normalize_output text
unfolding normalize_output
normalize_output-to_crlf text h = ap strip (newlines-to_crlf text h ∙ sym (newlines_same text h))

-- Normalizing twice is normalizing once.
pub normalize_output_idem :
    (output : Bytes) → normalize_output (normalize_output output) ≡ normalize_output output
unfolding normalize_output strip
normalize_output_idem output =
    ap strip (newlines_same (strip (newlines output)) no_cr) ∙ strip_idem (newlines output)
  where
    no_cr : all_of not_cr (strip (newlines output)) ≡ true
    no_cr = all_of-reverse not_cr _ (
        all_of-pop_trailing not_cr _
          (all_of-reverse not_cr (newlines output) (newlines-not_cr output)))
