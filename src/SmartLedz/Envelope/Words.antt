-- ===== src/SmartLedz/Envelope/Words.antt =====
-- src/hedp/adapters/smartledz/normalizer.py: which names of words are sensitive, however they are joined.
use hedp.Prelude.{
  ℕ, ◌+◌, ◌-◌, ◌≡◌, refl, ap, ◌∙◌, Bool, true, false, ◌&&◌, ◌||◌, List, [], ◌∷◌, ◌++◌, map, arith,
  any, All, ltb, ◌==◌,
}
use hedp.Prelude.Texts.{codes}
use hedp.SmartLedz.Envelope.{
  Text, same_text, is_upper, is_lower, is_digit, break_words, break_acronyms, dashes_to_underscores,
  add_first, split_underscores, casefold, is_sensitive,
}

-- The words that mark a name as sensitive.
abbrev pub marks : Text → Bool
marks word = any (same_text word) (
    map codes (
      "address" ∷ "auth" ∷ "config" ∷ "configuration" ∷ "cookie" ∷ "id" ∷ "ip" ∷ "mac" ∷ "name"
      ∷ "password" ∷ "secret" ∷ "serial" ∷ "setting" ∷ "ssid" ∷ "token" ∷ "udn" ∷ []))

-- A word is joined to the one before it by an underscore, by a dash, or by its capital.
pub data Joint : Type 0 where
  underscore dash capital : Joint

abbrev pub IsLetter : ℕ → Type 0
IsLetter c = (is_lower c || is_digit c) ≡ true

abbrev pub IsWord : Text → Type 0
IsWord [] = ⊥
IsWord (c ∷ cs) = IsLetter c × All IsLetter cs

-- A word with a capital starts with a letter, and has more than that.
abbrev pub IsJoined : Joint × Text → Type 0
IsJoined (capital, c ∷ d ∷ cs) = (is_lower c ≡ true) × IsWord (d ∷ cs)
IsJoined (capital, _) = ⊥
IsJoined (_, word) = IsWord word

abbrev pub joined : List (Joint × Text) → Text
joined [] = []
joined ((underscore, word) ∷ parts) = 0x5F ∷ (word ++ joined parts)
joined ((dash, word) ∷ parts) = 0x2D ∷ (word ++ joined parts)
joined ((capital, c ∷ cs) ∷ parts) = (c - 0x20) ∷ (cs ++ joined parts)
joined ((capital, []) ∷ parts) = joined parts

-- The capitals set off by underscores.
abbrev broken : List (Joint × Text) → Text
broken [] = []
broken ((underscore, word) ∷ parts) = 0x5F ∷ (word ++ broken parts)
broken ((dash, word) ∷ parts) = 0x2D ∷ (word ++ broken parts)
broken ((capital, c ∷ cs) ∷ parts) = 0x5F ∷ (c - 0x20) ∷ (cs ++ broken parts)
broken ((capital, []) ∷ parts) = broken parts

-- Underscores only.
abbrev flat : List (Joint × Text) → Text
flat [] = []
flat ((joint, word) ∷ parts) = 0x5F ∷ (word ++ flat parts)

not_upper : (c : ℕ) → IsLetter c → is_upper c ≡ false
not_upper c letter = ground arith

capital_upper : (c : ℕ) → is_lower c ≡ true → is_upper (c - 0x20) ≡ true
capital_upper c lower = ground arith

capital_not_letter :
    (c : ℕ) → is_lower c ≡ true → (is_lower (c - 0x20) || is_digit (c - 0x20)) ≡ false
capital_not_letter c lower = ground arith

break_words-word :
    (c : ℕ) (cs tail after : Text)
    → IsWord (c ∷ cs)
    → ((d : ℕ) → IsLetter d → break_words (d ∷ tail) ≡ d ∷ after)
    → break_words (c ∷ (cs ++ tail)) ≡ c ∷ (cs ++ after)
break_words-word c [] tail after (letter, _) of_tail = of_tail c letter
break_words-word c (d ∷ cs) tail after (letter, (next, others)) of_tail =
    rw (letter, not_upper d next)
      (ap (◌∷◌ c) (break_words-word d cs tail after (next, others) of_tail))

break_words-joined :
    (c : ℕ) (parts : List (Joint × Text))
    → IsLetter c
    → All IsJoined parts
    → break_words (c ∷ joined parts) ≡ c ∷ broken parts
break_words-joined c [] letter all = refl
break_words-joined c ((underscore, d ∷ ds) ∷ parts) letter (word, all) = rw (letter) (
    ap (λ t. c ∷ 0x5F ∷ t)
      (break_words-word d ds (joined parts) (broken parts) word
        (λ e of_e. break_words-joined e parts of_e all)))
break_words-joined c ((dash, d ∷ ds) ∷ parts) letter (word, all) = rw (letter) (
    ap (λ t. c ∷ 0x2D ∷ t)
      (break_words-word d ds (joined parts) (broken parts) word
        (λ e of_e. break_words-joined e parts of_e all)))
break_words-joined c ((capital, d ∷ e ∷ es) ∷ parts) letter ((lower, word), all) =
    rw (letter, capital_upper d lower, capital_not_letter d lower)
      (ap (λ t. c ∷ 0x5F ∷ (d - 0x20) ∷ t)
        (break_words-word e es (joined parts) (broken parts) word
          (λ x of_x. break_words-joined x parts of_x all)))
break_words-joined c ((underscore, []) ∷ parts) letter (word, all) = absurd word
break_words-joined c ((dash, []) ∷ parts) letter (word, all) = absurd word
break_words-joined c ((capital, []) ∷ parts) letter (word, all) = absurd word
break_words-joined c ((capital, d ∷ []) ∷ parts) letter (word, all) = absurd word

-- No two capitals stand side by side.
abbrev IsApart : Text → Type 0
IsApart [] = Unit
IsApart (c ∷ []) = Unit
IsApart (c ∷ d ∷ rest) = ((is_upper c && is_upper d) ≡ false) × IsApart (d ∷ rest)

break_acronyms-IsApart : (t : Text) → IsApart t → break_acronyms t ≡ t
break_acronyms-IsApart [] apart = refl
break_acronyms-IsApart (c ∷ []) apart = refl
break_acronyms-IsApart (c ∷ d ∷ []) apart = refl
break_acronyms-IsApart (c ∷ d ∷ e ∷ rest) (here, apart) =
    rw (here) (ap (◌∷◌ c) (break_acronyms-IsApart (d ∷ e ∷ rest) apart))

word-IsApart :
    (c : ℕ) (cs tail : Text)
    → IsWord (c ∷ cs)
    → ((d : ℕ) → IsLetter d → IsApart (d ∷ tail))
    → IsApart (c ∷ (cs ++ tail))
word-IsApart c [] tail (letter, _) of_tail = of_tail c letter
word-IsApart c (d ∷ cs) tail (letter, word) of_tail =
    ((rw (not_upper c letter) refl), word-IsApart d cs tail word of_tail)

and_false : (b c : Bool) → c ≡ false → (b && c) ≡ false
and_false true c h = h
and_false false c h = refl

broken-IsApart :
    (c : ℕ) (parts : List (Joint × Text))
    → IsLetter c
    → All IsJoined parts
    → IsApart (c ∷ broken parts)
broken-IsApart c [] letter all = tt
broken-IsApart c ((underscore, d ∷ ds) ∷ parts) letter (word, all) = (
  and_false (is_upper c) false refl,
  (refl, word-IsApart d ds (broken parts) word (λ e of_e. broken-IsApart e parts of_e all)),
)
broken-IsApart c ((dash, d ∷ ds) ∷ parts) letter (word, all) = (
  and_false (is_upper c) false refl,
  (refl, word-IsApart d ds (broken parts) word (λ e of_e. broken-IsApart e parts of_e all)),
)
broken-IsApart c ((capital, d ∷ e ∷ es) ∷ parts) letter ((lower, word), all) = (
  and_false (is_upper c) false refl,
  (
    refl,
    (
      and_false (is_upper (d - 0x20)) (is_upper e) (not_upper e word.0),
      word-IsApart e es (broken parts) word (λ x of_x. broken-IsApart x parts of_x all),
    ),
  ),
)
broken-IsApart c ((underscore, []) ∷ parts) letter (word, all) = absurd word
broken-IsApart c ((dash, []) ∷ parts) letter (word, all) = absurd word
broken-IsApart c ((capital, []) ∷ parts) letter (word, all) = absurd word
broken-IsApart c ((capital, d ∷ []) ∷ parts) letter (word, all) = absurd word

letter_kept : (c : ℕ) → IsLetter c → (ltb c 128 ≡ true) × ((c == 0x2D) ≡ false)
letter_kept c letter = (ground arith, ground arith)

letter_no_underscore : (c : ℕ) → IsLetter c → (c == 0x5F) ≡ false
letter_no_underscore c letter = ground arith

capital_folded : (c : ℕ) → is_lower c ≡ true → (c - 0x20) + 0x20 ≡ c
capital_folded c lower = ground arith

lower-IsLetter : (c : ℕ) → is_lower c ≡ true → IsLetter c
lower-IsLetter c lower = rw (lower) refl

module _ (fold_other : ℕ → Text) where
  abbrev fold : Text → Text
  fold t = dashes_to_underscores (casefold fold_other t)

  fold-letter : (c : ℕ) (t : Text) → IsLetter c → fold (c ∷ t) ≡ c ∷ fold t
  fold-letter c t letter =
      let (small, no_dash) = letter_kept c letter in rw (not_upper c letter, small, no_dash) refl

  fold-append : (w t : Text) → All IsLetter w → fold (w ++ t) ≡ w ++ fold t
  fold-append [] t all = refl
  fold-append (c ∷ w) t (letter, all) =
      fold-letter c (w ++ t) letter ∙ ap (◌∷◌ c) (fold-append w t all)

  fold-capital : (c : ℕ) (t : Text) → is_lower c ≡ true → fold ((c - 0x20) ∷ t) ≡ c ∷ fold t
  fold-capital c t lower =
      let (_, no_dash) = letter_kept c (lower-IsLetter c lower) in
      rw (capital_upper c lower, capital_folded c lower, no_dash) refl

  fold-broken :
      (parts : List (Joint × Text)) → All IsJoined parts → fold (broken parts) ≡ flat parts
  fold-broken [] all = refl
  fold-broken ((underscore, d ∷ ds) ∷ parts) (word, all) =
      ap (◌∷◌ 0x5F)
        (fold-append (d ∷ ds) (broken parts) word ∙ ap (λ t. d ∷ (ds ++ t)) (fold-broken parts all))
  fold-broken ((dash, d ∷ ds) ∷ parts) (word, all) =
      ap (◌∷◌ 0x5F)
        (fold-append (d ∷ ds) (broken parts) word ∙ ap (λ t. d ∷ (ds ++ t)) (fold-broken parts all))
  fold-broken ((capital, d ∷ e ∷ es) ∷ parts) ((lower, word), all) = ap (◌∷◌ 0x5F) (
      fold-capital d (e ∷ (es ++ broken parts)) lower
      ∙ ap (◌∷◌ d) (
          fold-append (e ∷ es) (broken parts) word
          ∙ ap (λ t. e ∷ (es ++ t)) (fold-broken parts all)))
  fold-broken ((underscore, []) ∷ parts) (word, all) = absurd word
  fold-broken ((dash, []) ∷ parts) (word, all) = absurd word
  fold-broken ((capital, []) ∷ parts) (word, all) = absurd word
  fold-broken ((capital, d ∷ []) ∷ parts) (word, all) = absurd word

split-append :
    (w t : Text) (rest : List Text)
    → All IsLetter w
    → split_underscores t ≡ [] ∷ rest
    → split_underscores (w ++ t) ≡ w ∷ rest
split-append [] t rest all of_t = of_t
split-append (c ∷ w) t rest (letter, all) of_t =
    rw (letter_no_underscore c letter) (ap (add_first c) (split-append w t rest all of_t))

joined-AllLetters : (joint : Joint) (word : Text) → IsJoined (joint, word) → All IsLetter word
joined-AllLetters underscore (c ∷ cs) word = word
joined-AllLetters dash (c ∷ cs) word = word
joined-AllLetters capital (c ∷ d ∷ cs) (lower, word) = (lower-IsLetter c lower, word)
joined-AllLetters underscore [] word = absurd word
joined-AllLetters dash [] word = absurd word
joined-AllLetters capital [] word = absurd word
joined-AllLetters capital (c ∷ []) word = absurd word

split-flat :
    (parts : List (Joint × Text))
    → All IsJoined parts
    → split_underscores (flat parts) ≡ [] ∷ map (λ p. p.1) parts
split-flat [] all = refl
split-flat ((joint, word) ∷ parts) (of_word, all) = ap (◌∷◌ []) (
    split-append word (flat parts) (map (λ p. p.1) parts) (joined-AllLetters joint word of_word)
      (split-flat parts all))

module _ (fold_other : ℕ → Text) where
  -- A name of words is sensitive exactly if one of its words marks it.
  pub is_sensitive-joined :
      (c : ℕ) (cs : Text) (parts : List (Joint × Text))
      → IsWord (c ∷ cs)
      → All IsJoined parts
      → is_sensitive fold_other (c ∷ (cs ++ joined parts))
        ≡ any marks ((c ∷ cs) ∷ map (λ p. p.1) parts)
  unfolding is_sensitive
  is_sensitive-joined c cs parts word all =
      let broke : break_words (c ∷ (cs ++ joined parts)) ≡ c ∷ (cs ++ broken parts) =
        break_words-word c cs (joined parts) (broken parts) word
          (λ d of_d. break_words-joined d parts of_d all) in
      let apart : break_acronyms (c ∷ (cs ++ broken parts)) ≡ c ∷ (cs ++ broken parts) =
        break_acronyms-IsApart (c ∷ (cs ++ broken parts))
          (word-IsApart c cs (broken parts) word (λ d of_d. broken-IsApart d parts of_d all)) in
      let folded : fold fold_other (c ∷ (cs ++ broken parts)) ≡ c ∷ (cs ++ flat parts) =
        fold-append fold_other (c ∷ cs) (broken parts) word
        ∙ ap (λ t. c ∷ (cs ++ t)) (fold-broken fold_other parts all) in
      let words : split_underscores (c ∷ (cs ++ flat parts)) ≡ (c ∷ cs) ∷ map (λ p. p.1) parts =
        split-append (c ∷ cs) (flat parts) (map (λ p. p.1) parts) word (split-flat parts all) in
      ap (λ t. any marks (split_underscores (fold fold_other (break_acronyms t)))) broke
      ∙ ap (λ t. any marks (split_underscores (fold fold_other t))) apart
      ∙ ap (λ t. any marks (split_underscores t)) folded
      ∙ ap (any marks) words
