-- ===== src/Rdl/Strings.antt =====
-- The string literals that the generator writes, against the rule STRING of SystemRDL.g4.
use systemrdl_toolkit.Base.{
  ℕ, ◌≡◌, refl, ◌∙◌, &&-eq-true, Bool, true, false, ◌&&◌, ◌||◌, [], ◌∷◌, ◌++◌, append_assoc, Option,
  not, ap, suc, drop, length, eq_bytes, ◌-◌, none, some, Bytes, arith, ltb, leb, ◌==◌,
  if◌then◌else◌,
}
use systemrdl_toolkit.Elab.ExprText.Search.{take-front}
use systemrdl_toolkit.Elab.Expr.{without_quotes}
use systemrdl_toolkit.Rdl.{escape_char, escape_string}

-- The rule STRING behind its opening quote: what is left behind the closing one. The flag says
-- that a backslash stands before; only a quote or a backslash may follow it.
pub string_token : Bool → Bytes → Option Bytes
string_token esc [] = none
string_token true (c ∷ s) =
    let rest = string_token false s in if c == 34 || c == 92 then rest else none
string_token false (c ∷ s) = let rest = string_token (c == 92) s in if c == 34 then some s else rest

-- printable ASCII and line ends
pub is_plain : ℕ → Bool
is_plain c = c == 10 || c == 13 || (leb 32 c && ltb c 127)

pub all_plain : Bytes → Bool
all_plain [] = true
all_plain (c ∷ s) = is_plain c && all_plain s

string_token-escape_char :
    (c : ℕ) (s : Bytes)
    → string_token false (escape_char c ++ s) ≡ (if is_plain c then string_token false s else none)
unfolding string_token escape_char is_plain
string_token-escape_char c s = ground arith

escape_literal :
    (s rest : Bytes)
    → string_token false (escape_string s ++ 34 ∷ rest) ≡ (if all_plain s then some rest else none)
unfolding escape_string all_plain
escape_literal [] rest = unfold string_token in refl
escape_literal (c ∷ s) rest =
    rw
      (
        append_assoc,
        string_token-escape_char c (escape_string s ++ 34 ∷ rest),
        escape_literal s rest,
      )
      (ground arith)

-- bytes that stand for themselves in a literal: no quote, backslash or carriage return
pub all_verbatim : Bytes → Bool
all_verbatim [] = true
all_verbatim (c ∷ s) = (is_plain c && not (c == 34 || (c == 92 || c == 13))) && all_verbatim s

escape_char-verbatim :
    (c : ℕ) → (is_plain c && not (c == 34 || (c == 92 || c == 13))) ≡ true → escape_char c ≡ c ∷ []
unfolding escape_char is_plain
escape_char-verbatim c h = ground arith

escape_string-verbatim : (s : Bytes) → all_verbatim s ≡ true → escape_string s ≡ s
unfolding escape_string all_verbatim
escape_string-verbatim [] h = refl
escape_string-verbatim (c ∷ s) h =
    let (here, later) = &&-eq-true _ (all_verbatim s) h in
    rw (escape_char-verbatim c here, escape_string-verbatim s later) refl

drop-last : (x : Bytes) → drop (length x) (x ++ 34 ∷ []) ≡ 34 ∷ []
drop-last [] = refl
drop-last (c ∷ x) = drop-last x

length-closed : (x : Bytes) → length (x ++ 34 ∷ []) ≡ suc (length x)
length-closed [] = refl
length-closed (c ∷ x) = ap suc (length-closed x)

-- the elaborator takes the quotes off
without_quotes-quoted : (x : Bytes) → without_quotes (34 ∷ (x ++ 34 ∷ [])) ≡ x
unfolding without_quotes eq_bytes
without_quotes-quoted x =
    let long : leb 2 (suc (suc (length x))) ≡ true = ground arith in
    let all_but_one : suc (suc (length x)) - 1 ≡ suc (length x) = omega arith in
    let all_but_two : suc (suc (length x)) - 2 ≡ length x = omega arith in
    rw (without_quotes, length-closed x, long, all_but_one, all_but_two, drop-last x)
      (take-front x (34 ∷ []))

-- The literal that is written for a text is one token of the grammar, closed by the quote that
-- the generator adds, exactly if the text holds printable ASCII and line ends only; a tab or a
-- byte outside ASCII is written as an escape that the grammar does not have. The elaborator reads
-- the token as the text with its escapes; where none of the text is a quote, a backslash or a
-- carriage return, and all is printable ASCII or a line end, that is the text itself.
pub escape_string-token :
    (s rest : Bytes)
    → (string_token false (escape_string s ++ 34 ∷ rest)
        ≡ (if all_plain s then some rest else none))
      × (without_quotes (34 ∷ (escape_string s ++ 34 ∷ [])) ≡ escape_string s)
      × (all_verbatim s ≡ true → without_quotes (34 ∷ (escape_string s ++ 34 ∷ [])) ≡ s)
escape_string-token s rest = (
  escape_literal s rest,
  without_quotes-quoted (escape_string s),
  λ h. without_quotes-quoted (escape_string s) ∙ escape_string-verbatim s h,
)
