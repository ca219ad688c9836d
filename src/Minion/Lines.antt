-- ===== src/Minion/Lines.antt =====
-- strings.Split at line breaks, and its round trip with strings.Join.
use Prim.Native.Char.{Char, code}
use Prim.Native.String.{◌++◌ as append}
use Prim.Native.String.append
use quilt.Prelude.{
  ◌≡◌, refl, ap, ◌∙◌, false, String, List, [], ◌∷◌, All, ◌==◌, nat_eq, strings_join, if◌then◌else◌,
}

abbrev pub put_first : Char → List String → List String
put_first c [] = String.◌∷◌ c "" ∷ []
put_first c (s ∷ ss) = String.◌∷◌ c s ∷ ss

-- strings.Split(s, "\n")
unfoldable pub split_lines : String → List String
split_lines String.[] = "" ∷ []
split_lines (String.◌∷◌ c s) =
    let rest = split_lines s in if code c == 10 then "" ∷ rest else put_first c rest

abbrev pub IsLine : String → Type 0
IsLine String.[] = Unit
IsLine (String.◌∷◌ c s) = ((code c == 10) ≡ false) × IsLine s

split_one : (s : String) → IsLine s → split_lines s ≡ s ∷ []
unfolding split_lines
split_one String.[] h = refl
split_one (String.◌∷◌ c s) h = rw (h.0, split_one s h.1) refl

split-append :
    (s t : String) → IsLine s → split_lines (append s (append "\n" t)) ≡ s ∷ split_lines t
unfolding split_lines
split-append String.[] t h =
    rw (append.nil (append "\n" t), append.cons "\n" "" t, append.nil t) refl
split-append (String.◌∷◌ c s) t h =
    rw (append.cons c s (append "\n" t)) (rw (h.0, split-append s t h.1) refl)

-- Lines that are joined and split again are the same, if there is at least one.
pub split-join :
    (l : String) (ls : List String)
    → All IsLine (l ∷ ls)
    → split_lines (strings_join "\n" (l ∷ ls)) ≡ l ∷ ls
split-join l [] h = split_one l h.0
split-join l (k ∷ ls) h =
    split-append l (strings_join "\n" (k ∷ ls)) h.0 ∙ ap (◌∷◌ l) (split-join k ls h.1)
