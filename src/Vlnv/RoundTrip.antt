-- ===== src/Vlnv/RoundTrip.antt =====
-- Printing a tag and reading it back.
use fpga.Prelude.{
  Bool, true, false, not, ◌&&◌, [], ◌∷◌, ◌++◌, ◌≡◌, refl, ◌≢◌, Text, is_space, arith, All,
}
use fpga.Vlnv.{
  Vlnv, Stream, delimiter, split_line, getline, parse_from_string, star_to_empty, empty_to_star,
  print, take_word, extract_word, to_string,
}

-- A field that can be told apart in the printed form: no delimiter in it, and not "*".
pub record IsPlain (f : Text) : Type 0 where
  pub no_delimiter : All (λ c. c ≢ delimiter) f
  pub not_star : f ≢ b'*' ∷ []

pub record IsPrintable (v : Vlnv) : Type 0 where
  pub vendor_plain : IsPlain v.vendor
  pub library_plain : IsPlain v.library
  pub name_plain : IsPlain v.name
  pub version_plain : IsPlain v.version

-- A line without delimiter is read up to the delimiter behind it.
split_line-delimited :
    (f rest : Text)
    → All (λ c. c ≢ delimiter) f
    → split_line (f ++ (delimiter ∷ rest)) ≡ (f, record { rest = rest; at_end = false })
unfolding split_line
split_line-delimited [] rest h = refl
split_line-delimited (c ∷ f) rest h = ground (arith, split_line-delimited f rest h.1, h.0)

split_line-last :
    (f : Text)
    → All (λ c. c ≢ delimiter) f
    → split_line f ≡ (f, record { rest = []; at_end = true })
unfolding split_line
split_line-last [] h = refl
split_line-last (c ∷ f) h = ground (arith, split_line-last f h.1, h.0)

star-delimiter : (f : Text) → IsPlain f → All (λ c. c ≢ delimiter) (empty_to_star f)
star-delimiter [] p = ((λ e. omega arith), tt)
star-delimiter (c ∷ f) p = p.no_delimiter

star-star : (f : Text) → IsPlain f → star_to_empty (empty_to_star f) ≡ f
star-star [] p = ground arith
star-star (c ∷ f) p = ground (arith, p.not_star)

-- Reading what operator<< printed gives the tag back, if its fields hold no delimiter and none is
-- "*".
pub parse_from_string-print : (v : Vlnv) → IsPrintable v → parse_from_string (print v) ≡ v
unfolding parse_from_string print getline
parse_from_string-print v p = rw (
  split_line-delimited _ _ (star-delimiter _ p.vendor_plain),
  split_line-delimited _ _ (star-delimiter _ p.library_plain),
  split_line-delimited _ _ (star-delimiter _ p.name_plain),
  split_line-last _ (star-delimiter _ p.version_plain),
  star-star _ p.vendor_plain,
  star-star _ p.library_plain,
  star-star _ p.name_plain,
  star-star _ p.version_plain,
)

split_line-plain : (s : Text) → All (λ c. c ≢ delimiter) (split_line s).0
unfolding split_line
split_line-plain [] = tt
split_line-plain (c ∷ s) = ground (arith, split_line-plain s)

getline-plain : (st : Stream) → All (λ c. c ≢ delimiter) (getline [] st).0
unfolding getline
getline-plain st = ground (arith, split_line-plain st.rest)

star_to_empty-IsPlain : (f : Text) → All (λ c. c ≢ delimiter) f → IsPlain (star_to_empty f)
star_to_empty-IsPlain f h = ground arith

-- What parseFromString makes of any text is a tag that can be printed and read back.
pub parse_from_string-IsPrintable : (s : Text) → IsPrintable (parse_from_string s)
unfolding parse_from_string
parse_from_string-IsPrintable s =
    let s0 : Stream = record { rest = s; at_end = false } in
    let s1 = (getline [] s0).1 in
    let s2 = (getline [] s1).1 in
    let s3 = (getline [] s2).1 in
    record {
      vendor_plain = star_to_empty-IsPlain _ (getline-plain s0);
      library_plain = star_to_empty-IsPlain _ (getline-plain s1);
      name_plain = star_to_empty-IsPlain _ (getline-plain s2);
      version_plain = star_to_empty-IsPlain _ (getline-plain s3);
    }

-- Whatever text a tag is read from, printing that tag and reading it again gives the same tag.
pub parse-print-parse :
    (s : Text) → parse_from_string (print (parse_from_string s)) ≡ parse_from_string s
parse-print-parse s = parse_from_string-print _ (parse_from_string-IsPrintable s)

abbrev pub is_unspaced : Text → Bool
is_unspaced [] = true
is_unspaced (c ∷ s) = not (is_space c) && is_unspaced s

take_word-unspaced : (s : Text) → is_unspaced s ≡ true → take_word s ≡ s
unfolding take_word
take_word-unspaced [] h = refl
take_word-unspaced (c ∷ s) h = ground (arith, take_word-unspaced s)

extract_word-unspaced : (s : Text) → is_unspaced s ≡ true → extract_word s ≡ s
unfolding extract_word take_word
extract_word-unspaced [] h = refl
extract_word-unspaced (c ∷ s) h = ground (arith, take_word-unspaced s)

-- toString is the printed form, if that holds no white space.
pub to_string-print : (v : Vlnv) → is_unspaced (print v) ≡ true → to_string v ≡ print v
unfolding to_string
to_string-print v h = extract_word-unspaced (print v) h
