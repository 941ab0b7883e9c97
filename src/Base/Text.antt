-- ===== src/Base/Text.antt =====
-- Python's strings as lists of code points.
use Prim.Native.Char.{code}
use hsr_battle_agent.Base.{
  Bool, List, String, [], arith, false, leb, not, refl, true, ℕ, ◌&&◌, ◌++◌, ◌==◌, ◌||◌, ◌↔◌, ◌∷◌,
  ◌≡◌,
}

abbrev pub Text : Type 0
Text = List ℕ

-- A literal's code points.
abbrev pub codes : String → Text
codes String.[] = []
codes (String.◌∷◌ c s) = code c ∷ codes s

unfoldable pub eqb_text : Text → Text → Bool
eqb_text [] [] = true
eqb_text [] (c ∷ cs) = false
eqb_text (b ∷ bs) [] = false
eqb_text (b ∷ bs) (c ∷ cs) = b == c && eqb_text bs cs

pub eqb_text_iff : (b c : Text) → (eqb_text b c ≡ true) ↔ (b ≡ c)
unfolding eqb_text
eqb_text_iff [] [] = ((λ _. refl), (λ _. refl))
eqb_text_iff [] (c ∷ cs) = ((λ h. cc), (λ h. cc))
eqb_text_iff (b ∷ bs) [] = ((λ h. cc), (λ h. cc))
eqb_text_iff (b ∷ bs) (c ∷ cs) = ground (arith, eqb_text_iff bs cs)

-- `str.isspace` of one code point
abbrev pub is_space : ℕ → Bool
is_space c =
    (leb 9 c && leb c 13)
    || (leb 28 c && leb c 32)
    || c == 0x85
    || c == 0xA0
    || c == 0x1680
    || (leb 0x2000 c && leb c 0x200A)
    || c == 0x2028
    || c == 0x2029
    || c == 0x202F
    || c == 0x205F
    || c == 0x3000

-- `bool(value.strip())`: some code point is not white space.
unfoldable pub is_text : Text → Bool
is_text [] = false
is_text (c ∷ cs) = not (is_space c) || is_text cs

-- A text stays one behind any prefix.
pub is_text-append : (b c : Text) → is_text c ≡ true → is_text (b ++ c) ≡ true
unfolding is_text
is_text-append [] c h = h
is_text-append (x ∷ b) c h = rw (is_text-append b c h) (ground arith)
