-- ===== src/Config/LongLine.antt =====
-- src/systems/config.c, `char line[MAX_LINE_LEN]`: what becomes of a line that does not fit.
use poste_italiane_simulatio.Prelude.{
  suc, ◌≡◌, refl, sym, ap, ◌∙◌, inl, [], ◌∷◌, ◌++◌, length, length-append, arith,
}
use poste_italiane_simulatio.Config.Defs.{PosteConfig}
use poste_italiane_simulatio.Config.Scan.{Bytes, fgets}
use poste_italiane_simulatio.Config.Load.{load_lines, load_file}
use poste_italiane_simulatio.Config.Lines.{NoNewline, fgets-full, load_lines-fuel, load_lines-step}
use poste_italiane_simulatio.Config.Entry.{process_line-blank}

fgets_long :
    (body tail : Bytes)
    → NoNewline body
    → length body ≡ 126
    → fgets 127 (b'#' ∷ (body ++ tail)) ≡ (b'#' ∷ body, tail)
fgets_long body tail plain full =
    ap (λ n. fgets n (b'#' ∷ (body ++ tail))) (sym (ap suc full))
    ∙ fgets-full (b'#' ∷ body) tail ((λ e. omega arith), plain)

-- A comment that does not fit the buffer is cut in two: of a line whose first 127 bytes are a
-- comment, what follows is read as a line of its own, and so as a setting if it looks like one.
pub load_file-long_comment :
    (g : PosteConfig) (body tail : Bytes)
    → NoNewline body
    → length body ≡ 126
    → load_file g (b'#' ∷ (body ++ tail)) ≡ load_file g tail
unfolding load_file
load_file-long_comment g body tail plain full =
    load_lines-step (suc (length (body ++ tail))) 126 g (b'#' ∷ (body ++ tail)) (b'#' ∷ body) tail
      (fgets_long body tail plain full) (λ e. cc)
    ∙ ap (λ h. load_lines (suc (length (body ++ tail))) 127 h tail)
        (process_line-blank g [] (b'#' ∷ body) tt (inl refl))
    ∙ load_lines-fuel (suc (length (body ++ tail))) (suc (length tail)) 126 g tail
        (omega (arith, length-append body tail)) (omega arith)
