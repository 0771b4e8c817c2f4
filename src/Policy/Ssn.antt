-- ===== src/Policy/Ssn.antt =====
-- `looks_like_ssn` of policy.rs: eleven bytes of the form ddd-dd-dddd.
use pzd.Base.{◌≡◌, ◌↔◌, arith, true, [], ◌∷◌, length, Bytes, codes, ◌==◌, if◌then◌else◌}
use pzd.Policy.{is_ascii_digit, ssn_window, looks_like_ssn}
use pzd.Policy.Contains.{Occurs, any-windows, windows-any}

-- The text follows the template, in which `d` stands for a digit and any other byte for itself.
abbrev pub Follows : Bytes → Bytes → Type 0
Follows [] [] = Unit
Follows [] (b ∷ bs) = ⊥
Follows (t ∷ ts) [] = ⊥
Follows (t ∷ ts) (b ∷ bs) =
    ((if t == b'd' then is_ascii_digit b else b == t) ≡ true) × Follows ts bs

abbrev pub template : Bytes
template = codes "ddd-dd-dddd"

ssn_window_iff : (w : Bytes) → length w ≡ 11 → (ssn_window w ≡ true) ↔ Follows template w
unfolding ssn_window
ssn_window_iff (a ∷ b ∷ c ∷ d ∷ e ∷ f ∷ g ∷ h ∷ i ∷ j ∷ k ∷ []) l =
    (λ t. ground arith, λ t. ground arith)
ssn_window_iff w l = absurd (omega arith)

-- `looks_like_ssn` holds exactly for a text in which eleven bytes in a row follow the template
-- ddd-dd-dddd, a `d` standing for a digit. Nothing is asked of the bytes before and behind them.
pub looks_like_ssn_iff :
    (text : Bytes)
    → (looks_like_ssn text ≡ true)
      ↔ ((w : Bytes) × (length w ≡ 11) × Follows template w × Occurs w text)
unfolding looks_like_ssn
looks_like_ssn_iff text = (found, standing)
  where
    found :
        looks_like_ssn text ≡ true
        → (w : Bytes) × (length w ≡ 11) × Follows template w × Occurs w text
    found h =
        let (w, t, l, o) = any-windows ssn_window 11 text h in (w, l, (ssn_window_iff w l).0 t, o)

    standing :
        ((w : Bytes) × (length w ≡ 11) × Follows template w × Occurs w text)
        → looks_like_ssn text ≡ true
    standing (w, l, t, o) =
        rw o.split
          (windows-any ssn_window 11 o.before w o.behind (omega arith) l ((ssn_window_iff w l).1 t))
