-- ===== src/Crossbar/Valid.antt =====
-- What parseString of lib/utils.cpp leaves in the members.
use fpga.Prelude.{
  ℕ, ◌≤◌, Bool, true, false, [], ◌∷◌, Option, none, some, if◌then◌else◌, ltb, Text, codes, text_eq,
  is_empty, stoi, value, no_digits, too_large, StoiResult, pos, negsuc, ◌≡◌, refl, ap, ◌∙◌, Error,
  Ensures, Spec, Spec-bind, Spec-throw, Spec-pure, Spec-if, Spec-modify, pure, throw, gets-keeps,
  plain_exception, out_of_range, invalid_argument, arith,
}
use fpga.Crossbar.{
  ConnectType, aurora, dma, dino, ConnectString, unparsed, keywords, is_one_of, regex_match,
  port_in_range, port_string_to_int, type_of, set_ends, set_arrow, matched, parse_string,
}

-- A port is a number exactly where the end is an Aurora channel.
abbrev pub KindValid : ConnectType → Option ℕ → Type 0
KindValid aurora (some port) = Unit {0}
KindValid aurora none = ⊥
KindValid kind (some port) = ⊥
KindValid kind none = Unit {0}

abbrev pub PortValid : ℕ → Option ℕ → Type 0
PortValid max_port none = Unit {0}
PortValid max_port (some port) = port ≤ max_port

-- Both ends of a parsed line.
abbrev pub EndsValid : ℕ → ConnectString → Type 0
EndsValid max_port cs =
    (KindValid cs.src_type cs.src_as_int × PortValid max_port cs.src_as_int)
    × (KindValid cs.dst_type cs.dst_as_int × PortValid max_port cs.dst_as_int)

-- How the parser fails: with an exception.
abbrev pub Throws : Option Error → ConnectString → Type 0
Throws none cs = ⊥
Throws (some e) cs = Unit {0}

module _ (max_port : ℕ) where
  abbrev Limited : ConnectString → Type 0
  Limited cs = cs.max_port_num ≡ max_port

  in_range :
      (n : ℕ) (b : Bool) {R : ConnectString → Type 0}
      → ltb max_port n ≡ b
      → Spec R
          (if b then throw plain_exception else pure (some n))
          (λ port cs. PortValid max_port port × R cs)
          Throws
  in_range n true e = Spec-throw plain_exception λ cs r. tt
  in_range n false e = Spec-pure (some n) λ cs r. (ground arith, r)

  port_in_range-Valid :
      (number : StoiResult) {R : ConnectString → Type 0}
      → Spec R (port_in_range max_port number) (λ port cs. PortValid max_port port × R cs) Throws
  unfolding port_in_range
  port_in_range-Valid no_digits = Spec-throw invalid_argument λ cs r. tt
  port_in_range-Valid too_large = Spec-throw out_of_range λ cs r. tt
  port_in_range-Valid (value (negsuc n)) = Spec-throw plain_exception λ cs r. tt
  port_in_range-Valid (value (pos n)) = in_range n (ltb max_port n) refl

  at_limit :
      (limit : ℕ) (number : StoiResult) {R : ConnectString → Type 0}
      → Spec
          (λ cs. (R cs × Limited cs) × (limit ≡ cs.max_port_num))
          (port_in_range limit number)
          (λ port cs. PortValid max_port port × (R cs × Limited cs))
          Throws
  at_limit limit number {R} = record {
    at = λ cs p.
        rw (p.1 ∙ p.0.1) ((port_in_range-Valid number {R = λ s. R s × Limited s}).at cs p.0);
  }

  port_string_to_int-Valid :
      (text : Text) {R : ConnectString → Type 0}
      → Spec
          (λ cs. R cs × Limited cs)
          (port_string_to_int text)
          (λ port cs. PortValid max_port port × (R cs × Limited cs))
          Throws
  unfolding port_string_to_int
  port_string_to_int-Valid text {R} =
      Spec-if (is_one_of text keywords) _ _ (λ _. Spec-pure none λ cs r. (tt, r))
        λ _.
          Spec-bind _ _ (gets-keeps (λ cs. cs.max_port_num))
            λ limit. at_limit limit (stoi text) {R = R}

type_of-Valid :
    (text : Text) (port : Option ℕ) {R : ConnectString → Type 0}
    → Spec R (type_of text port) (λ kind cs. KindValid kind port × R cs) Throws
unfolding type_of
type_of-Valid text (some port) = Spec-pure aurora λ cs r. (tt, r)
type_of-Valid text none =
    Spec-if (text_eq text (codes "dino")) _ _ (λ _. Spec-pure dino λ cs r. (tt, r))
      λ _.
        Spec-if (is_one_of text (codes "dma" ∷ codes "pipe" ∷ codes "stdin" ∷ codes "stdout" ∷ []))
          _ _ (λ _. Spec-pure dma λ cs r. (tt, r)) (λ _. Spec-throw plain_exception λ cs r. tt)

module _ (max_port : ℕ) where
  -- The ports are those that were read.
  abbrev Ports : Option ℕ → Option ℕ → ConnectString → Type 0
  Ports s d cs =
      (PortValid max_port s × (cs.src_as_int ≡ s)) × (PortValid max_port d × (cs.dst_as_int ≡ d))

  abbrev Source : ConnectType → Option ℕ → ConnectString → Type 0
  Source kind s cs = KindValid kind s × (cs.src_type ≡ kind)

  ends :
      (kind kind' : ConnectType) (s d : Option ℕ) (cs : ConnectString)
      → KindValid kind' d
      → Source kind s cs
      → Ports s d cs
      → EndsValid max_port (record cs { dst_type = kind' })
  ends kind kind' s d cs dst src ports = (
    (valid cs.src_type cs.src_as_int kind s src.1 ports.0.1 (src.0, ports.0.0)),
    valid kind' cs.dst_as_int kind' d refl ports.1.1 (dst, ports.1.0),
  )
    where
      valid :
          (k : ConnectType) (p : Option ℕ) (k' : ConnectType) (p' : Option ℕ)
          → k ≡ k'
          → p ≡ p'
          → KindValid k' p' × PortValid max_port p'
          → KindValid k p × PortValid max_port p
      valid k p k' p' e e' v = rw (e, e') v

  set_ends-Valid :
      (src dst : Text)
      → Spec
          (λ cs. Unit {0} × Limited max_port cs)
          (set_ends src dst)
          (λ _. EndsValid max_port)
          Throws
  unfolding set_ends
  set_ends-Valid src dst =
      Spec-bind _ _ (port_string_to_int-Valid max_port src {R = λ _. Unit {0}}) λ s.
        Spec-bind _ _
          (Spec-modify _
            {Q = λ _ cs. (PortValid max_port s × (cs.src_as_int ≡ s)) × Limited max_port cs}
            λ cs p. ((p.0, refl), p.1.1))
          λ _.
            Spec-bind _ _
              (port_string_to_int-Valid max_port dst
                {R = λ cs. PortValid max_port s × (cs.src_as_int ≡ s)})
              λ d.
                Spec-bind _ _ (Spec-modify _ {Q = λ _. Ports s d} λ cs p. (p.1.0, (p.0, refl))) λ _.
                  Spec-bind _ _ (type_of-Valid src s {R = Ports s d}) λ kind.
                    Spec-bind _ _
                      (Spec-modify _ {Q = λ _ cs. Source kind s cs × Ports s d cs}
                        λ cs p. ((p.0, refl), p.1))
                      λ _.
                        Spec-bind _ _
                          (type_of-Valid dst d {R = λ cs. Source kind s cs × Ports s d cs})
                          λ kind'. Spec-modify _ λ cs p. ends kind kind' s d cs p.0 p.1.0 p.1.1

  set_arrow-Valid :
      (left arrow right : Text)
      → Spec
          (λ cs. Unit {0} × Limited max_port cs)
          (set_arrow left arrow right)
          (λ _. EndsValid max_port)
          Throws
  unfolding set_arrow
  set_arrow-Valid left arrow right =
      Spec-if (text_eq arrow (codes "<->")) _ _
        (λ _. Spec-bind _ _ (Spec-modify _ λ cs p. p) λ _. set_ends-Valid left right)
        λ _.
          Spec-if (text_eq arrow (codes "<-")) _ _
            (λ _. Spec-bind _ _ (Spec-modify _ λ cs p. p) λ _. set_ends-Valid right left)
            (λ _. set_ends-Valid left right)

  after_match :
      (groups : Option (Text × (Text × Text)))
      → Spec (λ cs. cs ≡ unparsed max_port) (matched groups) (λ _. EndsValid max_port) Throws
  unfolding matched
  after_match none = Spec-throw plain_exception λ cs p. tt
  after_match (some groups) = record {
    at = λ cs p.
        (set_arrow-Valid groups.0 groups.1.0 groups.1.1).at cs (tt, ap (λ s. s.max_port_num) p);
  }

  -- A connection string that the parser takes has two ends of which each is an Aurora channel with a
  -- port that is at most the largest, or another core without a port; what it does not take throws.
  pub parse_string-Valid :
      (text : Text)
      → Ensures (λ _. EndsValid max_port) Throws (parse_string text (unparsed max_port))
  unfolding parse_string
  parse_string-Valid text = whole.at (unparsed max_port) refl
    where
      whole :
          Spec (λ cs. cs ≡ unparsed max_port) (parse_string text) (λ _. EndsValid max_port) Throws
      whole =
          Spec-if (is_empty text) _ _ (λ _. Spec-pure tt λ cs p. rw (p) ((tt, tt), (tt, tt)))
            λ _.
              Spec-if (text_eq text (codes "loopback")) _ _
                (λ _. Spec-modify _ λ cs p. rw (p) ((tt, tt), (tt, tt)))
                (λ _. after_match (regex_match text))
