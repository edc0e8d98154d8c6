-- ===== src/Config/Entry.antt =====
-- src/systems/config.c, the body of the loop of `load_config`: what a line that sets something
-- does, with any blanks, separators and comment, and what a line with no setting does.
use mathlib.Core.List.{append-nil}
use poste_italiane_simulatio.Prelude.{
  ℕ, ◌≡◌, ◌≢◌, refl, ap, ◌∙◌, ◌⊎◌, Bool, true, false, some, [], ◌∷◌, ◌++◌, All, ◌==◌, arith,
}
use poste_italiane_simulatio.Config.Defs.{PosteConfig}
use poste_italiane_simulatio.Config.Scan.{
  Bytes, break, c_string, strip_comment, is_delim, skip_delims, behind, token, strtok,
}
use poste_italiane_simulatio.Config.Load.{apply_setting, apply_value, apply_key, process_line}

-- Bytes that no delimiter, comment or end of string is among.
abbrev pub IsPlain : ℕ → Type 0
IsPlain c = (is_delim c ≡ false) × ((c == b'#') ≡ false) × ((c == 0) ≡ false)

abbrev pub IsDelim : ℕ → Type 0
IsDelim c = is_delim c ≡ true

-- What may stand behind a value: nothing, a delimiter, a comment or a NUL, and then anything.
abbrev pub EndsWord : Bytes → Type 0
EndsWord [] = Unit
EndsWord (c ∷ cs) = IsDelim c ⊎ ((c ≡ b'#') ⊎ (c ≡ 0))

module _ (p : ℕ → Bool) where
  abbrev Misses : Bytes → Type 0
  Misses = All (λ c. p c ≡ false)

  abbrev Hits : Bytes → Type 0
  Hits [] = Unit
  Hits (c ∷ cs) = p c ≡ true

  break-Misses : (l r : Bytes) → Misses l → break p (l ++ r) ≡ (l ++ (break p r).0, (break p r).1)
  unfolding break
  break-Misses [] r h = refl
  break-Misses (c ∷ cs) r h = rw (h.0, break-Misses cs r h.1)

  break-Hits : (r : Bytes) → Hits r → break p r ≡ ([], r)
  unfolding break
  break-Hits [] h = refl
  break-Hits (c ∷ cs) h = rw h

All-map : {P Q : ℕ → Type 0} (l : Bytes) → ((c : ℕ) → P c → Q c) → All P l → All Q l
All-map [] f h = tt
All-map (c ∷ cs) f h = (f c h.0, All-map cs f h.1)

skip_delims-delims : (pad r : Bytes) → All IsDelim pad → skip_delims (pad ++ r) ≡ skip_delims r
unfolding skip_delims
skip_delims-delims [] r h = refl
skip_delims-delims (c ∷ cs) r h = rw h.0 (skip_delims-delims cs r h.1)

skip_delims-word : (w r : Bytes) → w ≢ [] → All IsPlain w → skip_delims (w ++ r) ≡ w ++ r
unfolding skip_delims
skip_delims-word [] r ne h = absurd (ne refl)
skip_delims-word (c ∷ cs) r ne h = rw h.0.0

token_ne-nil :
    (w r : Bytes)
    → w ≢ []
    → token (w ++ r) ≡ some ((break is_delim (w ++ r)).0, behind (break is_delim (w ++ r)).1)
token_ne-nil [] r ne = absurd (ne refl)
token_ne-nil (c ∷ cs) r ne = refl

-- `strtok` on blanks, a word and what ends it.
strtok-word :
    (pad w r : Bytes)
    → All IsDelim pad
    → w ≢ []
    → All IsPlain w
    → Hits is_delim r
    → strtok (pad ++ (w ++ r)) ≡ some (w, behind r)
unfolding strtok
strtok-word pad w r hpad ne hw hr =
    ap token (skip_delims-delims pad (w ++ r) hpad ∙ skip_delims-word w r ne hw)
    ∙ token_ne-nil w r ne
    ∙ ap (λ (x : Bytes × Bytes). some (x.0, behind x.1)) found
  where
    found : break is_delim (w ++ r) ≡ (w, r)
    found =
        break-Misses is_delim w r (All-map w (λ c h. h.0) hw)
        ∙ rw (break-Hits is_delim r hr, append-nil)

-- What the scan sees of a line: the bytes before the first NUL, and of those before the first `#`.
abbrev cut : Bytes → Bytes
cut s = strip_comment (c_string s)

abbrev IsText : ℕ → Type 0
IsText c = ((c == b'#') ≡ false) × ((c == 0) ≡ false)

cut-text : (l r : Bytes) → All IsText l → cut (l ++ r) ≡ l ++ cut r
unfolding strip_comment c_string
cut-text l r h =
    ap (λ (x : Bytes × Bytes). strip_comment x.0)
      (break-Misses (λ c. c == 0) l r (All-map l (λ c x. x.1) h))
    ∙ ap (λ (x : Bytes × Bytes). x.0)
        (break-Misses (λ c. c == b'#') l (c_string r) (All-map l (λ c x. x.0) h))

cut-EndsWord : (r : Bytes) → EndsWord r → Hits is_delim (cut r)
unfolding strip_comment c_string
cut-EndsWord [] e = tt
cut-EndsWord (c ∷ cs) e = ground arith

IsText-of_delim : (c : ℕ) → IsDelim c → IsText c
IsText-of_delim c h = ground arith

cut-delims : (l r : Bytes) → All IsDelim l → cut (l ++ r) ≡ l ++ cut r
cut-delims l r h = cut-text l r (All-map l IsText-of_delim h)

cut-plain : (l r : Bytes) → All IsPlain l → cut (l ++ r) ≡ l ++ cut r
cut-plain l r h = cut-text l r (All-map l (λ c x. (x.1, x.2)) h)

behind_delims :
    (sep w r : Bytes)
    → sep ≢ []
    → All IsDelim sep
    → (sep' : Bytes) × All IsDelim sep' × (behind (sep ++ (w ++ r)) ≡ sep' ++ (w ++ r))
behind_delims [] w r ne h = absurd (ne refl)
behind_delims (c ∷ cs) w r ne h = (cs, h.1, refl)

Hits-delims : (sep r : Bytes) → sep ≢ [] → All IsDelim sep → Hits is_delim (sep ++ r)
Hits-delims [] r ne h = absurd (ne refl)
Hits-delims (c ∷ cs) r ne h = h.0

-- A line that holds a key, a separator and a value, with blanks in front and anything that cannot
-- be part of the value behind (a comment for one), sets that key to that value: blanks, the choice
-- and the number of separators, the comment and what follows a NUL make no difference.
pub process_line-entry :
    (g : PosteConfig) (pad key sep val rest : Bytes)
    → All IsDelim pad
    → key ≢ []
    → All IsPlain key
    → sep ≢ []
    → All IsDelim sep
    → val ≢ []
    → All IsPlain val
    → EndsWord rest
    → process_line g (pad ++ (key ++ (sep ++ (val ++ rest)))) ≡ apply_setting g key val
unfolding process_line apply_key apply_value
process_line-entry g pad key sep val rest hpad nkey hkey nsep hsep nval hval hrest =
    let (sep', hsep', e) = behind_delims sep val (cut rest) nsep hsep in
    ap (λ s. apply_key g (strtok s)) seen
    ∙ ap (apply_key g) (
        strtok-word pad key (sep ++ (val ++ cut rest)) hpad nkey hkey (Hits-delims sep _ nsep hsep))
    ∙ ap (λ s. apply_value g key (strtok s)) e
    ∙ ap (apply_value g key)
        (strtok-word sep' val (cut rest) hsep' nval hval (cut-EndsWord rest hrest))
  where
    seen : cut (pad ++ (key ++ (sep ++ (val ++ rest)))) ≡ pad ++ (key ++ (sep ++ (val ++ cut rest)))
    seen = rw (
      cut-delims pad (key ++ (sep ++ (val ++ rest))) hpad,
      cut-plain key (sep ++ (val ++ rest)) hkey,
      cut-delims sep (val ++ rest) hsep,
      cut-plain val rest hval,
    )

-- Nothing, or what starts with a comment or a NUL.
abbrev pub EndsLine : Bytes → Type 0
EndsLine [] = Unit
EndsLine (c ∷ cs) = (c ≡ b'#') ⊎ (c ≡ 0)

cut-EndsLine : (r : Bytes) → EndsLine r → cut r ≡ []
unfolding strip_comment c_string
cut-EndsLine [] e = refl
cut-EndsLine (c ∷ cs) e = ground arith

-- A line of blanks alone, or of blanks and then a comment or a NUL, changes no setting.
pub process_line-blank :
    (g : PosteConfig) (pad rest : Bytes)
    → All IsDelim pad
    → EndsLine rest
    → process_line g (pad ++ rest) ≡ g
unfolding process_line apply_key strtok
process_line-blank g pad rest hpad h =
    ap (λ s. apply_key g (token (skip_delims s)))
      (cut-delims pad rest hpad ∙ ap (λ r. pad ++ r) (cut-EndsLine rest h))
    ∙ ap (λ s. apply_key g (token s)) (skip_delims-delims pad [] hpad)
