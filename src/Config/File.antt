-- ===== src/Config/File.antt =====
-- How `Config::file_to_str` (src/config.cpp) turns the bytes of a file into a text.
use audpipe_cpp.Prelude.{
  ℕ, ◌≡◌, ◌≢◌, refl, ◌↔◌, some, List, [], ◌∷◌, ◌++◌, ok, arith, append-nil, append_assoc,
}
use audpipe_cpp.Config.Environment.{Host, FilePath}
use audpipe_cpp.Config.{until_nul, file_to_str}

-- No byte of the list is NUL.
abbrev pub NulFree : List ℕ → Type 0
NulFree [] = Unit {0}
NulFree (x ∷ xs) = (x ≢ 0) × NulFree xs

until_nul-append : (xs ys : List ℕ) → NulFree xs → until_nul (xs ++ ys) ≡ xs ++ until_nul ys
unfolding until_nul
until_nul-append [] ys f = refl
until_nul-append (x ∷ xs) ys f = ground (arith, until_nul-append xs ys f.1)

append-eq_self : (xs ys : List ℕ) → xs ++ ys ≡ xs → ys ≡ []
append-eq_self [] ys e = e
append-eq_self (x ∷ xs) ys e = append-eq_self xs ys (cc)

module _ (h : Host) (path p : FilePath) (found : h.canonical path ≡ some p) where
  -- A file with a NUL is cut there: the text is what stands before the first one.
  file_to_str_cut :
      (before after : List ℕ)
      → NulFree before
      → h.read p ≡ some (before ++ 0 ∷ after)
      → file_to_str h path ≡ ok before
  unfolding file_to_str until_nul
  file_to_str_cut [] after f r = ground arith
  file_to_str_cut (b ∷ before) after f r = ground (
    arith,
    until_nul-append (b ∷ before) (0 ∷ after ++ h.behind (b ∷ before ++ 0 ∷ after)) f,
    append_assoc (b ∷ before) (0 ∷ after) (h.behind (b ∷ before ++ 0 ∷ after)),
    append-nil (b ∷ before),
  )

  -- A file that is not empty and has no NUL is followed in the text by the bytes that stand in memory
  -- behind it, up to a NUL; so the text is the file exactly when a NUL (or nothing) happens to come next.
  pub file_to_str_overrun :
      (contents : List ℕ)
      → contents ≢ []
      → NulFree contents
      → h.read p ≡ some contents
      → (file_to_str h path ≡ ok (contents ++ until_nul (h.behind contents)))
        × ((file_to_str h path ≡ ok contents) ↔ (until_nul (h.behind contents) ≡ []))
  unfolding file_to_str
  file_to_str_overrun contents some_byte f r = (
    text,
    (
      λ e. ground (arith, text, append-eq_self contents (until_nul (h.behind contents))),
      λ e. ground (arith, text, append-nil contents),
    ),
  )
    where
      text : file_to_str h path ≡ ok (contents ++ until_nul (h.behind contents))
      text = by_contents contents some_byte f r
        where
          by_contents :
              (contents : List ℕ)
              → contents ≢ []
              → NulFree contents
              → h.read p ≡ some contents
              → file_to_str h path ≡ ok (contents ++ until_nul (h.behind contents))
          by_contents [] some_byte f r = absurd (some_byte refl)
          by_contents (c ∷ cs) some_byte f r =
              ground (arith, until_nul-append (c ∷ cs) (h.behind (c ∷ cs)) f)
