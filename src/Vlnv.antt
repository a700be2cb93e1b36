-- ===== src/Vlnv.antt =====
-- lib/vlnv.cpp and include/villas/fpga/vlnv.hpp: the vendor, library, name, version tag.
pub mod Match
pub mod RoundTrip
mod Examples
use fpga.Prelude.{
  ℕ, Bool, true, false, not, ◌&&◌, ◌||◌, List, [], ◌∷◌, ◌++◌, ◌==◌, if◌then◌else◌, Text, codes,
  text_eq, is_empty, is_space,
}

-- The fields as they are kept: an empty one is a wildcard.
pub record Vlnv : Type 0 where
  pub vendor : Text
  pub library : Text
  pub name : Text
  pub version : Text

abbrev pub delimiter : ℕ
delimiter = b':'

-- Vlnv::getWildcard
abbrev pub wildcard : Vlnv
wildcard = record { vendor = []; library = []; name = []; version = [] }

-- Vlnv::operator==
unfoldable pub vlnv_eq : Vlnv → Vlnv → Bool
vlnv_eq v other = vendor_match && library_match && name_match && version_match
  where
    vendor_match : Bool
    vendor_match = (is_empty v.vendor || is_empty other.vendor) || text_eq v.vendor other.vendor

    library_match : Bool
    library_match =
        (is_empty v.library || is_empty other.library) || text_eq v.library other.library

    name_match : Bool
    name_match = (is_empty v.name || is_empty other.name) || text_eq v.name other.name

    version_match : Bool
    version_match =
        (is_empty v.version || is_empty other.version) || text_eq v.version other.version

-- Vlnv::operator!=
unfoldable pub vlnv_ne : Vlnv → Vlnv → Bool
unfolding vlnv_eq
vlnv_ne v other = not (vlnv_eq v other)

-- What is left of a std::stringstream, and whether its end has been met.
pub record Stream : Type 0 where
  pub rest : Text
  pub at_end : Bool

-- The text up to the next delimiter, and the stream behind it.
unfoldable pub split_line : Text → Text × Stream
split_line [] = ([], record { rest = []; at_end = true })
split_line (c ∷ s) =
    let (line, after) = split_line s in
    if c == delimiter then ([], record { rest = s; at_end = false }) else (c ∷ line, after)

-- std::getline: once the end has been met, the string stays as it was.
unfoldable pub getline : Text → Stream → Text × Stream
unfolding split_line
getline str stream = if stream.at_end then (str, stream) else split_line stream.rest

-- A field that is "*" is kept as the empty one.
abbrev pub star_to_empty : Text → Text
star_to_empty f = if text_eq f (b'*' ∷ []) then [] else f

-- Vlnv::parseFromString, on the members' initial values.
unfoldable pub parse_from_string : Text → Vlnv
unfolding getline
parse_from_string s =
    let (vendor, s1) = getline [] (record { rest = s; at_end = false }) in
    let (library, s2) = getline [] s1 in
    let (name, s3) = getline [] s2 in
    let (version, s4) = getline [] s3 in
    record {
      vendor = star_to_empty vendor;
      library = star_to_empty library;
      name = star_to_empty name;
      version = star_to_empty version;
    }

abbrev pub empty_to_star : Text → Text
empty_to_star f = if is_empty f then b'*' ∷ [] else f

-- operator<< on a std::ostream
unfoldable pub print : Vlnv → Text
print v =
    empty_to_star v.vendor
    ++ (delimiter
        ∷ (empty_to_star v.library
            ++ (delimiter ∷ (empty_to_star v.name ++ (delimiter ∷ empty_to_star v.version)))))

-- `stream >> string`: skip white space, then take the characters up to the next white space.
unfoldable pub take_word : Text → Text
take_word [] = []
take_word (c ∷ s) = let rest = take_word s in if is_space c then [] else c ∷ rest

unfoldable pub extract_word : Text → Text
unfolding take_word
extract_word [] = []
extract_word (c ∷ s) = let rest = extract_word s in if is_space c then rest else take_word (c ∷ s)

-- Vlnv::toString
unfoldable pub to_string : Vlnv → Text
unfolding print extract_word
to_string v = extract_word (print v)
