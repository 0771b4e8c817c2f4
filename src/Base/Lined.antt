-- ===== src/Base/Lined.antt =====
-- Texts by their lines: what `lines` reads of lines that were written with an ending behind each.
use Prim.Native.Nat.{ℕ}
use mathlib.Core.Path.{◌≡◌, refl, sym, ap, ◌∙◌}
use mathlib.Core.Bool.{Bool, true, false}
use mathlib.Core.List.{List, [], ◌∷◌, ◌++◌, append_assoc}
use pzd.Base.Logic.{◌==◌}
use pzd.Base.Lists.{All}
use pzd.Base.Octets.{Bytes}
use pzd.Base.Text.{lines, cons_first}

-- A byte that ends no line.
abbrev pub Unbroken : ℕ → Type 0
Unbroken b = ((b == 10) ≡ false) × ((b == 13) ≡ false)

-- A line feed, with or without a carriage return before it.
abbrev pub ending : Bool → Bytes
ending false = 10 ∷ []
ending true = 13 ∷ 10 ∷ []

-- A text with an ending behind each line.
unfoldable pub text_of : Bool → List Bytes → Bytes
text_of crlf [] = []
text_of crlf (l ∷ ls) = l ++ (ending crlf ++ text_of crlf ls)

lines_line :
    (crlf : Bool) (l rest : Bytes)
    → All Unbroken l
    → lines (l ++ (ending crlf ++ rest)) ≡ l ∷ lines rest
unfolding lines
lines_line false [] rest p = refl
lines_line true [] rest p = refl
lines_line crlf (b ∷ l) rest ((f, g), p) =
    let ih = lines_line crlf l rest p in rw (f, g) (ap (cons_first b) ih)

pub lines-text_of :
    (crlf : Bool) (ls : List Bytes) → All (All Unbroken) ls → lines (text_of crlf ls) ≡ ls
unfolding lines text_of
lines-text_of crlf [] p = refl
lines-text_of crlf (l ∷ ls) p =
    lines_line crlf l (text_of crlf ls) p.0 ∙ ap (◌∷◌ l) (lines-text_of crlf ls p.1)

-- One more line.
pub text_of-append :
    (crlf : Bool) (ls : List Bytes) (l : Bytes)
    → text_of crlf (ls ++ (l ∷ [])) ≡ text_of crlf ls ++ (l ++ ending crlf)
unfolding text_of
text_of-append false [] l = refl
text_of-append true [] l = refl
text_of-append crlf (k ∷ ls) l =
    ap (λ t. k ++ (ending crlf ++ t)) (text_of-append crlf ls l)
    ∙ ap (◌++◌ k) (sym (append_assoc (ending crlf) (text_of crlf ls) (l ++ ending crlf)))
    ∙ sym (append_assoc k (ending crlf ++ text_of crlf ls) (l ++ ending crlf))
