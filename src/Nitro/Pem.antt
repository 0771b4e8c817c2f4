-- ===== src/Nitro/Pem.antt =====
-- The reading of PEM files.
use pzd.Base.{
  ℕ, ◌≡◌, ◌<◌, arith, refl, ap, ◌∙◌, Bool, true, false, Option, none, some, List, [], ◌∷◌, ◌++◌,
  All, All-append, Bytes, codes, ◌==◌, ◌>>=◌,
}
use pzd.Base.Result.{ok, ok_or}
use pzd.Base.Text.{starts_with, utf8_first, utf8_loop, is_utf8}
use pzd.Base.Lined.{Unbroken, ending, text_of, lines-text_of}
use pzd.Nitro.Formats.{Formats}
use pzd.Nitro.Armor.{concat_inner, decode_vec}

-- A byte of ASCII that ends no line.
abbrev pub Plain : ℕ → Type 0
Plain b = (b < 128) × ((b == 10) ≡ false) × ((b == 13) ≡ false)

line-Unbroken : (l : Bytes) → All Plain l → All Unbroken l
line-Unbroken [] p = tt
line-Unbroken (b ∷ l) (q, p) = ((q.1, q.2), line-Unbroken l p)

lines-Unbroken : (ls : List Bytes) → All (All Plain) ls → All (All Unbroken) ls
lines-Unbroken [] p = tt
lines-Unbroken (l ∷ ls) (q, p) = (line-Unbroken l q, lines-Unbroken ls p)

abbrev Ascii : ℕ → Type 0
Ascii b = b < 128

Ascii-utf8_loop : (bs : Bytes) → All Ascii bs → utf8_loop 0 0x80 0xBF bs ≡ true
unfolding utf8_loop utf8_first
Ascii-utf8_loop [] p = refl
Ascii-utf8_loop (b ∷ bs) (a, p) =
    let first : utf8_first b ≡ some (0, 0x80, 0xBF) = ground arith in
    ap
      (λ (o : Option (ℕ × ℕ × ℕ)). elim o [
        | none ↦ false
        | some (more, low, high) ↦ utf8_loop more low high bs
      ])
      first
    ∙ Ascii-utf8_loop bs p

line-Ascii : (l : Bytes) → All Plain l → All Ascii l
line-Ascii [] p = tt
line-Ascii (b ∷ l) (q, p) = (q.0, line-Ascii l p)

ending-Ascii : (crlf : Bool) → All Ascii (ending crlf)
ending-Ascii false = (omega arith, tt)
ending-Ascii true = (omega arith, (omega arith, tt))

text_of-Ascii : (crlf : Bool) (ls : List Bytes) → All (All Plain) ls → All Ascii (text_of crlf ls)
unfolding text_of
text_of-Ascii crlf [] p = tt
text_of-Ascii crlf (l ∷ ls) p =
    All-append Ascii l _ (line-Ascii l p.0)
      (All-append Ascii (ending crlf) _ (ending-Ascii crlf) (text_of-Ascii crlf ls p.1))

-- The lines of the body, joined.
unfoldable pub joined : List Bytes → Bytes
joined [] = []
joined (l ∷ ls) = l ++ joined ls

-- A line that begins with five dashes, and one that does not.
abbrev pub Dashed : Bytes → Type 0
Dashed l = starts_with (codes "-----") l ≡ true

abbrev pub Inner : Bytes → Type 0
Inner l = starts_with (codes "-----") l ≡ false

concat_inner-append :
    (body : List Bytes) (footer : Bytes)
    → All Inner body
    → Dashed footer
    → concat_inner (body ++ (footer ∷ [])) ≡ joined body
unfolding concat_inner joined
concat_inner-append [] footer p d = rw d refl
concat_inner-append (l ∷ ls) footer p d =
    let rest = concat_inner-append ls footer p.1 d in rw p.0 (ap (◌++◌ l) rest)

concat_inner_header :
    (header : Bytes) (ls : List Bytes)
    → Dashed header
    → concat_inner (header ∷ ls) ≡ concat_inner ls
unfolding concat_inner
concat_inner_header header ls d = rw d refl

module _ (F : Formats) where
  -- From a file with a dashed line, lines that are not dashed and a dashed line, all in ASCII and ended by a line feed
  -- or by a carriage return and a line feed, `decode_vec` gives what the lines between the two encode.
  pub decode_vec_lem :
      (crlf : Bool) (header footer : Bytes) (body : List Bytes)
      → All (All Plain) (header ∷ (body ++ (footer ∷ [])))
      → Dashed header
      → All Inner body
      → Dashed footer
      → decode_vec F (text_of crlf (header ∷ (body ++ (footer ∷ [])))) ≡ (
          ok_or (F.base64_decode (joined body)) (codes "base64 decode") >>= λ der.
          ok (codes "CERTIFICATE", der))
  unfolding decode_vec is_utf8
  decode_vec_lem crlf header footer body p h i f =
      let text : Bytes = text_of crlf (header ∷ (body ++ (footer ∷ []))) in
      let utf8 = Ascii-utf8_loop text (text_of-Ascii crlf (header ∷ (body ++ (footer ∷ []))) p) in
      let found =
        lines-text_of crlf (header ∷ (body ++ (footer ∷ [])))
          (lines-Unbroken (header ∷ (body ++ (footer ∷ []))) p) in
      let inner : concat_inner (header ∷ (body ++ (footer ∷ []))) ≡ joined body =
        concat_inner_header header (body ++ (footer ∷ [])) h
        ∙ concat_inner-append body footer i f in
      rw (utf8, found, inner) refl
