-- ===== src/Persist/Filename/Distinct.antt =====
-- The files of the storage and of the cache, compared by their paths.
use citadel_runtime.Common.{
  ℕ, ◌≡◌, ◌≢◌, refl, sym, ap, ◌∙◌, Bool, true, false, ◌||◌, List, [], ◌∷◌, ◌++◌, append_assoc,
  append-nil, ◌==◌, if◌then◌else◌, arith, inl, inr, Bool-cases,
}
use citadel_runtime.Persist.{FileFormat, FileConfig}
use citadel_runtime.Persist.Filename.{
  slash, dot, ends_open, push, is_plain, without_extension, set_extension, storage_filename,
  cache_filename, storage_file, cache_file,
}

-- the directory of a location, with its slash
directory : List ℕ → List ℕ
unfolding ends_open
directory path = if ends_open path then path else path ++ slash ∷ []

without_extension-plain :
    (begins : Bool) (s : List ℕ) → is_plain s ≡ true → without_extension begins s ≡ s
unfolding without_extension
without_extension-plain begins [] h = refl
without_extension-plain begins (c ∷ s) h = ground (arith, without_extension-plain (c == slash) s)

has_slash : List ℕ → Bool
has_slash [] = false
has_slash (c ∷ s) = c == slash || has_slash s

slash-not_plain : (s : List ℕ) → has_slash s ≡ true → is_plain s ≡ false
unfolding has_slash is_plain
slash-not_plain [] h = cc
slash-not_plain (c ∷ s) h = ground (arith, slash-not_plain s)

has_slash-append : (x s : List ℕ) → has_slash s ≡ true → has_slash (x ++ s) ≡ true
unfolding has_slash
has_slash-append [] s h = h
has_slash-append (c ∷ x) s h = ground (arith, has_slash-append x s)

-- a name without dots in a directory has no extension
without_extension-in :
    (begins : Bool) (x name : List ℕ)
    → is_plain name ≡ true
    → without_extension begins (x ++ slash ∷ name) ≡ x ++ slash ∷ name
unfolding without_extension has_slash
without_extension-in begins [] name h = ground (arith, without_extension-plain true name)
without_extension-in begins (c ∷ x) name h = ground (
  arith,
  without_extension-in (c == slash) x name,
  slash-not_plain (x ++ slash ∷ name),
  has_slash-append x (slash ∷ name),
)

open-has_slash : (c : ℕ) (s : List ℕ) → ends_open (c ∷ s) ≡ true → has_slash (c ∷ s) ≡ true
unfolding ends_open has_slash
open-has_slash c [] h = ground arith
open-has_slash c (d ∷ s) h = ground (arith, open-has_slash d s)

has_slash-left : (x s : List ℕ) → has_slash x ≡ true → has_slash (x ++ s) ≡ true
unfolding has_slash
has_slash-left [] s h = cc
has_slash-left (c ∷ x) s h = ground (arith, has_slash-left x s)

without_extension-open :
    (begins : Bool) (x name : List ℕ)
    → ends_open x ≡ true
    → is_plain name ≡ true
    → without_extension begins (x ++ name) ≡ x ++ name
unfolding without_extension ends_open
without_extension-open begins [] name h p = without_extension-plain begins name p
without_extension-open begins (c ∷ []) name h p =
    ground (arith, without_extension-plain true name p)
without_extension-open begins (c ∷ d ∷ x) name h p = ground (
  arith,
  without_extension-open (c == slash) (d ∷ x) name,
  slash-not_plain ((d ∷ x) ++ name),
  has_slash-left (d ∷ x) name,
  open-has_slash d x,
)

-- the dot and the extension
suffix : List ℕ → List ℕ
suffix [] = []
suffix (e ∷ extension) = dot ∷ e ∷ extension

set_extension-suffix :
    (extension path : List ℕ)
    → set_extension extension path ≡ without_extension true path ++ suffix extension
unfolding set_extension suffix
set_extension-suffix [] path = sym (append-nil (without_extension true path))
set_extension-suffix (e ∷ extension) path = refl

-- the path of a file with a plain name
filename-parts :
    (extension location name : List ℕ)
    → is_plain name ≡ true
    → set_extension extension (push location name)
      ≡ directory location ++ (name ++ suffix extension)
unfolding push directory
filename-parts extension location name p =
    set_extension-suffix extension (push location name) ∙ elim (Bool-cases (ends_open location)) [
      | inl open' ↦ rw open' (
          ap (λ s. s ++ suffix extension) (without_extension-open true location name open' p)
          ∙ append_assoc location name (suffix extension))
      | inr shut ↦ rw shut (
          ap (λ s. s ++ suffix extension) (without_extension-in true location name p)
          ∙ append_assoc location (slash ∷ name) (suffix extension)
          ∙ sym (append_assoc location (slash ∷ []) (name ++ suffix extension)))
    ]

heads-ne : (x : List ℕ) (a b : ℕ) (s t : List ℕ) → a ≢ b → x ++ a ∷ s ≢ x ++ b ∷ t
heads-ne [] a b s t n h = n (ground arith)
heads-ne (c ∷ x) a b s t n h = heads-ne x a b s t n (ground arith)

-- In one location, whatever the formats and their extensions are, the file of the storage and the
-- file of the cache have different paths.
pub storage_file-ne-cache_file :
    (extension : FileFormat → List ℕ) (c c' : FileConfig)
    → c.location ≡ c'.location
    → storage_file extension c ≢ cache_file extension c'
unfolding storage_file cache_file
storage_file-ne-cache_file extension c c' same_location h =
    let stored = storage_filename ++ suffix (extension c.format) in
    let cached = cache_filename ++ suffix (extension c'.format) in
    let left : set_extension (extension c.format) (push c.location storage_filename)
        ≡ directory c.location ++ stored =
      filename-parts (extension c.format) c.location storage_filename (unfold is_plain in refl) in
    let right : set_extension (extension c'.format) (push c'.location cache_filename)
        ≡ directory c'.location ++ cached =
      filename-parts (extension c'.format) c'.location cache_filename (unfold is_plain in refl) in
    let paths : directory c'.location ++ stored ≡ directory c'.location ++ cached =
      ap (λ l. directory l ++ stored) (sym same_location) ∙ sym left ∙ h ∙ right in
    heads-ne (directory c'.location) 100 99 (97 ∷ 116 ∷ 97 ∷ suffix (extension c.format))
      (97 ∷ 99 ∷ 104 ∷ 101 ∷ suffix (extension c'.format)) (λ e. absurd (omega arith)) paths
