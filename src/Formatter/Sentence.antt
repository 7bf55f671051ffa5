-- ===== src/Formatter/Sentence.antt =====
-- Words in camel case, and the sentence that is made of them.
use startup_api.Base.{ℕ, ◌+◌, ◌-◌, ◌≡◌, true, List, [], ◌∷◌, ◌++◌, map, All, if◌then◌else◌, arith}
use startup_api.Formatter.{Units, is_lower, is_upper, spaced, convert_camel_case_to_sentence}

abbrev pub IsLower : ℕ → Type 0
IsLower c = is_lower c ≡ true

-- A word has at least two letters, all in lower case.
pub record Word : Type 0 where
  pub first : ℕ
  pub second : ℕ
  pub rest : Units

abbrev pub IsWord : Word → Type 0
IsWord w = IsLower w.first × IsLower w.second × All IsLower w.rest

-- Every word with its first letter in upper case.
pub camel : List Word → Units
camel [] = []
camel (w ∷ ws) = (w.first - 32) ∷ w.second ∷ (w.rest ++ camel ws)

-- Every word behind a space.
pub sentence : List Word → Units
sentence [] = []
sentence (w ∷ ws) = 32 ∷ w.first ∷ w.second ∷ (w.rest ++ sentence ws)

-- The lower case of the letters from A to Z, and of what is not among them.
abbrev pub Lowers : (ℕ → ℕ) → Type 0
Lowers lower = (c : ℕ) → lower c ≡ (if is_upper c then c + 32 else c)

module _ (lower : ℕ → ℕ) (l : Lowers lower) where
  -- Behind a letter in lower case.
  sentence_at :
      (a : ℕ) (s : Units) (ws : List Word)
      → IsLower a
      → All IsLower s
      → All IsWord ws
      → map lower (spaced (a ∷ (s ++ camel ws))) ≡ a ∷ (s ++ sentence ws)
  unfolding spaced camel sentence
  sentence_at a [] [] la ls lw = ground (arith, la, l a)
  sentence_at a [] (w ∷ ws) la ls (lw, lws) =
      ground
        (arith, la, lw, l a, l (w.first - 32), l 32, sentence_at w.second w.rest ws lw.1 lw.2 lws)
  sentence_at a (b ∷ s) ws la (lb, ls) lw = ground (arith, la, lb, l a, sentence_at b s ws lb ls lw)

  -- A name in camel case is turned into the sentence of its words: the first one, of one letter or
  -- more, and the others, each behind a space and in lower case.
  -- The conditions: the words are of lower case letters, those but the first have at least two, and
  -- lower case is taken of the letters from A to Z only.
  sentence_lem :
      (a : ℕ) (s : Units) (ws : List Word)
      → IsLower a
      → All IsLower s
      → All IsWord ws
      → convert_camel_case_to_sentence lower (a ∷ (s ++ camel ws)) ≡ a ∷ (s ++ sentence ws)
  unfolding convert_camel_case_to_sentence
  sentence_lem a s ws la ls lw = sentence_at a s ws la ls lw
