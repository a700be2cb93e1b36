-- ===== src/Core/Order.antt =====
-- CoreFactory::make: which cores are initialised first, and that none is lost on the way.
use mathlib.Core.List.{Perm, perm_middle}
use mathlib.Core.List.Perm
use fpga.Prelude.{
  Bool, true, not, List, [], ◌∷◌, ◌++◌, Option, none, some, ◌≡◌, refl, inl, inr, ◌&&◌, subst,
  keep_if, arith, Bool-cases, Option-cases, if◌then◌else◌,
}
use fpga.Vlnv.{Vlnv, vlnv_eq}
use fpga.Core.{
  IpIdentifier, Queues, put_back, splice, pick, pick_all, reversed_onto, initialization_order,
}

-- No core is lost or doubled between the two lists.
abbrev Conserves : List IpIdentifier → Option Queues → Type 0
Conserves ips none = Unit {0}
Conserves ips (some q) = Perm (q.ordered_ips ++ q.all_ips) ips

Conserves-perm :
    (r : Option Queues) {ips ips' : List IpIdentifier}
    → Perm ips ips'
    → Conserves ips r
    → Conserves ips' r
Conserves-perm none p h = tt
Conserves-perm (some q) p h = Perm.trans h p

put_back-Conserves :
    (ip : IpIdentifier) (r : Option Queues) (ips : List IpIdentifier)
    → Conserves ips r
    → Conserves (ip ∷ ips) (put_back ip r)
unfolding put_back
put_back-Conserves ip none ips h = tt
put_back-Conserves ip (some q) ips h =
    Perm.trans (perm_middle q.ordered_ips q.all_ips) (Perm.cons ip h)

pick-Conserves :
    (vlnv : Vlnv) (ips ordered : List IpIdentifier)
    → Conserves (ordered ++ ips) (pick vlnv ips ordered)
unfolding pick
pick-Conserves vlnv [] ordered = Perm.refl _
pick-Conserves vlnv (ip ∷ []) ordered = elim (Bool-cases (vlnv_eq vlnv ip.vlnv)) [
  | inl t ↦ rw t tt
  | inr f ↦ rw f (Perm.refl _)
]
pick-Conserves vlnv (ip ∷ ip' ∷ ips) ordered = elim (Bool-cases (vlnv_eq vlnv ip.vlnv)) [
  | inl t ↦ rw t (
      Conserves-perm (put_back ip' (pick vlnv ips (ip ∷ ordered)))
        (Perm.trans (Perm.cons ip' (Perm.symm (perm_middle ordered ips))) (
          Perm.trans (Perm.symm (perm_middle ordered (ip ∷ ips)))
            (Perm.append (Perm.refl ordered) (Perm.swap ip ip' ips))))
        (put_back-Conserves ip' (pick vlnv ips (ip ∷ ordered)) _
          (pick-Conserves vlnv ips (ip ∷ ordered))))
  | inr f ↦ rw f (
      Conserves-perm (put_back ip (pick vlnv (ip' ∷ ips) ordered))
        (Perm.symm (perm_middle ordered (ip' ∷ ips)))
        (put_back-Conserves ip (pick vlnv (ip' ∷ ips) ordered) _
          (pick-Conserves vlnv (ip' ∷ ips) ordered)))
]

pick_all-Conserves :
    (vlnvs : List Vlnv) (q : Queues) {ips : List IpIdentifier}
    → Perm (q.ordered_ips ++ q.all_ips) ips
    → Conserves ips (pick_all vlnvs q)
unfolding pick_all
pick_all-Conserves [] q h = h
pick_all-Conserves (vlnv ∷ vlnvs) q h = elim (Option-cases (pick vlnv q.all_ips q.ordered_ips)) [
  | inl e ↦ rw (e, pick_all) tt
  | inr (q', e) ↦
      rw (e, pick_all)
        (pick_all-Conserves vlnvs q'
          (Perm.trans (rw e at (pick-Conserves vlnv q.all_ips q.ordered_ips)) h))
]

splice-perm :
    (r : Option Queues) {ips order : List IpIdentifier}
    → Conserves ips r
    → splice r ≡ some order
    → Perm order ips
unfolding splice
splice-perm none c h = cc
splice-perm (some q) {ips} {order} c h =
    let e : q.ordered_ips ++ q.all_ips ≡ order = cc in subst (λ o. Perm o ips) e c

-- When the order comes out at all, it holds the cores of the configuration, each as often as there.
pub initialization_order-perm :
    (vlnvs : List Vlnv) (ips order : List IpIdentifier)
    → initialization_order vlnvs ips ≡ some order
    → Perm order ips
unfolding initialization_order
initialization_order-perm vlnvs ips order h =
    splice-perm (pick_all (reversed_onto vlnvs []) _)
      (pick_all-Conserves (reversed_onto vlnvs []) _ (Perm.refl ips)) h

-- No core that matches the tag stands last, or right behind another one.
abbrev pub is_spaced : Vlnv → List IpIdentifier → Bool
is_spaced vlnv [] = true
is_spaced vlnv (ip ∷ []) = not (vlnv_eq vlnv ip.vlnv)
is_spaced vlnv (ip ∷ ip' ∷ ips) =
    let behind = is_spaced vlnv ips in
    let next = is_spaced vlnv (ip' ∷ ips) in
    if vlnv_eq vlnv ip.vlnv then not (vlnv_eq vlnv ip'.vlnv) && behind else next

abbrev pub matching : Vlnv → List IpIdentifier → List IpIdentifier
matching vlnv = keep_if (λ ip. vlnv_eq vlnv ip.vlnv)

abbrev pub others : Vlnv → List IpIdentifier → List IpIdentifier
others vlnv = keep_if (λ ip. not (vlnv_eq vlnv ip.vlnv))

-- The last match comes first.
abbrev pub moved : List IpIdentifier → List IpIdentifier → List IpIdentifier
moved [] ordered = ordered
moved (ip ∷ ips) ordered = moved ips (ip ∷ ordered)

-- A round over a list in which no two adjacent cores match and the last does not match moves every
-- match to the front of the ordered list and leaves all other cores in their order.
pub pick_spaced :
    (vlnv : Vlnv) (ips ordered : List IpIdentifier)
    → is_spaced vlnv ips ≡ true
    → pick vlnv ips ordered
      ≡ some (record { all_ips = others vlnv ips; ordered_ips = moved (matching vlnv ips) ordered })
unfolding pick put_back
pick_spaced vlnv [] ordered h = refl
pick_spaced vlnv (ip ∷ []) ordered h = ground arith
pick_spaced vlnv (ip ∷ ip' ∷ ips) ordered h =
    ground (arith, pick_spaced vlnv ips (ip ∷ ordered), pick_spaced vlnv (ip' ∷ ips) ordered)

-- Behind a match the next core is passed over unread: it stays where it is even if it matches too, and
-- of the cores behind it, if no two adjacent ones match and the last does not, every match is moved.
pub pick_skips :
    (vlnv : Vlnv) (ip ip' : IpIdentifier) (ips ordered : List IpIdentifier)
    → vlnv_eq vlnv ip.vlnv ≡ true
    → is_spaced vlnv ips ≡ true
    → pick vlnv (ip ∷ ip' ∷ ips) ordered
      ≡ some (record {
        all_ips = ip' ∷ others vlnv ips;
        ordered_ips = moved (matching vlnv ips) (ip ∷ ordered);
      })
unfolding pick put_back
pick_skips vlnv ip ip' ips ordered t h = rw (t, pick_spaced vlnv ips (ip ∷ ordered) h)
