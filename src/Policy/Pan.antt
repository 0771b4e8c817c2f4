-- ===== src/Policy/Pan.antt =====
-- `looks_like_pan` of policy.rs: a run of exactly 16 digits.
use pzd.Base.{
  ℕ, ◌+◌, ◌≡◌, ◌↔◌, inl, inr, arith, true, false, [], ◌∷◌, ◌++◌, length, length-append,
  append_assoc, All, All-append, ap, ◌∙◌, sym, refl, Bytes, ◌==◌, Bool-cases,
}
use mathlib.Core.Path.{subst}
use pzd.Policy.{is_ascii_digit, pan_loop, looks_like_pan}

abbrev pub IsDigit : ℕ → Type 0
IsDigit c = is_ascii_digit c ≡ true

-- No digit stands at the front of the text, and none at its end.
abbrev pub StartsClear : Bytes → Type 0
StartsClear [] = Unit
StartsClear (c ∷ cs) = is_ascii_digit c ≡ false

abbrev pub EndsClear : Bytes → Type 0
EndsClear [] = Unit
EndsClear (c ∷ []) = is_ascii_digit c ≡ false
EndsClear (c ∷ d ∷ cs) = EndsClear (d ∷ cs)

-- Sixteen digits that no digit extends.
pub record HasPan (text : Bytes) : Type 0 where
  pub before : Bytes
  pub digits : Bytes
  pub behind : Bytes
  pub split : text ≡ before ++ (digits ++ behind)
  pub all_digits : All IsDigit digits
  pub sixteen : length digits ≡ 16
  pub clear_before : EndsClear before
  pub clear_behind : StartsClear behind

EndsClear-cons : (c : ℕ) (cs : Bytes) → is_ascii_digit c ≡ false → EndsClear cs → EndsClear (c ∷ cs)
EndsClear-cons c [] other h = other
EndsClear-cons c (d ∷ cs) other h = h

EndsClear-append :
    (xs : Bytes) (y : ℕ) (ys : Bytes) → EndsClear (y ∷ ys) → EndsClear (xs ++ (y ∷ ys))
EndsClear-append [] y ys h = h
EndsClear-append (x ∷ []) y ys h = h
EndsClear-append (x ∷ z ∷ xs) y ys h = EndsClear-append (z ∷ xs) y ys h

-- A text that follows a byte other than a digit.
HasPan-behind :
    (front : Bytes) (c : ℕ) (text : Bytes)
    → is_ascii_digit c ≡ false
    → HasPan text
    → HasPan (front ++ (c ∷ text))
HasPan-behind front c text other p = record {
  before = front ++ (c ∷ p.before);
  digits = p.digits;
  behind = p.behind;
  split =
      ap (λ t. front ++ (c ∷ t)) p.split
      ∙ sym (append_assoc front (c ∷ p.before) (p.digits ++ p.behind));
  all_digits = p.all_digits;
  sixteen = p.sixteen;
  clear_before = EndsClear-append front c p.before (EndsClear-cons c p.before other p.clear_before);
  clear_behind = p.clear_behind;
}

-- The digits of the present run stand in front of what the loop has not read.
pan_loop-HasPan :
    (cs run : Bytes) → All IsDigit run → pan_loop (length run) cs ≡ true → HasPan (run ++ cs)
unfolding pan_loop
pan_loop-HasPan [] run all h = record {
  before = [];
  digits = run;
  behind = [];
  split = refl;
  all_digits = all;
  sixteen = ground arith;
  clear_before = tt;
  clear_behind = tt;
}
pan_loop-HasPan (c ∷ cs) run all h = elim (Bool-cases (is_ascii_digit c)) [
  | inl digit ↦
      let len : length (run ++ (c ∷ [])) ≡ length run + 1 =
        omega (arith, length-append run (c ∷ [])) in
      subst HasPan (append_assoc run (c ∷ []) cs) (
        pan_loop-HasPan cs (run ++ (c ∷ [])) (All-append IsDigit run (c ∷ []) all (digit, tt))
          (rw len (ground arith)))
  | inr other ↦ elim (Bool-cases (length run == 16)) [
    | inl full ↦ record {
      before = [];
      digits = run;
      behind = c ∷ cs;
      split = refl;
      all_digits = all;
      sixteen = ground arith;
      clear_before = tt;
      clear_behind = other;
    }
    | inr part ↦ HasPan-behind run c cs other (pan_loop-HasPan cs [] tt (ground arith))
  ]
]

-- The loop over the sixteen digits themselves, with some of them read.
loop_digits :
    (digits behind : Bytes) (run : ℕ)
    → All IsDigit digits
    → run + length digits ≡ 16
    → StartsClear behind
    → pan_loop run (digits ++ behind) ≡ true
unfolding pan_loop
loop_digits [] [] run all e clear = ground arith
loop_digits [] (c ∷ cs) run all e clear = ground arith
loop_digits (d ∷ ds) behind run all e clear =
    let rest = loop_digits ds behind (run + 1) all.1 (omega arith) clear in
    ground (arith, all.0, rest)

-- The loop over what stands before them: it comes to the digits with an empty run.
loop_before :
    (before rest : Bytes) (run : ℕ)
    → EndsClear before
    → (before ≡ [] → run ≡ 0)
    → pan_loop 0 rest ≡ true
    → pan_loop run (before ++ rest) ≡ true
unfolding pan_loop
loop_before [] rest run clear fresh h = let z : run ≡ 0 = fresh refl in rw z h
loop_before (c ∷ []) rest run clear fresh h = ground arith
loop_before (c ∷ d ∷ before) rest run clear fresh h =
    let next = λ (r : ℕ).
      loop_before (d ∷ before) rest r clear (λ e. absurd (omega (arith, ap length e))) h in
    ground (arith, next (run + 1), next 0)

-- `looks_like_pan` holds exactly for a text with sixteen digits in a row that no further digit
-- stands before or behind.
pub looks_like_pan_iff : (text : Bytes) → (looks_like_pan text ≡ true) ↔ HasPan text
unfolding looks_like_pan
looks_like_pan_iff text = (
  pan_loop-HasPan text [] tt,
  λ p. rw p.split (
      loop_before p.before (p.digits ++ p.behind) 0 p.clear_before (λ e. refl)
        (loop_digits p.digits p.behind 0 p.all_digits (omega (arith, p.sixteen)) p.clear_behind)),
)
