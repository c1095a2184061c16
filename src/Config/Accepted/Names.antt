-- ===== src/Config/Accepted/Names.antt =====
-- Names that come one after the other, as the validators of the configuration meet them.
use elastic_fruit_runner.Base.{
  ◌≡◌, ◌↔◌, refl, true, false, String, List, [], ◌∷◌, ◌++◌, eq_iff, arith, contains, AllDifferent,
}

-- Names that come one after the other, each unlike those before it and those seen at first.
abbrev pub IsFresh : List String → List String → Type 0
IsFresh seen [] = Unit {0}
IsFresh seen (name ∷ names) = (contains name seen ≡ false) × IsFresh (name ∷ seen) names

-- The names seen in the end.
abbrev pub after : List String → List String → List String
after seen [] = seen
after seen (name ∷ names) = after (name ∷ seen) names

pub IsFresh-append :
    (seen xs ys : List String)
    → IsFresh seen (xs ++ ys) ↔ (IsFresh seen xs × IsFresh (after seen xs) ys)
IsFresh-append seen [] ys = (λ h. (tt, h), λ h. h.1)
IsFresh-append seen (x ∷ xs) ys =
    let rest = IsFresh-append (x ∷ seen) xs ys in
    (λ h. ((h.0, (rest.0 h.1).0), (rest.0 h.1).1), λ h. (h.0.0, rest.1 (h.0.1, h.1)))

pub after-append : (seen xs ys : List String) → after seen (xs ++ ys) ≡ after (after seen xs) ys
after-append seen [] ys = refl
after-append seen (x ∷ xs) ys = after-append (x ∷ seen) xs ys

-- Fresh names are different from each other and from those seen at first.
IsFresh-AllDifferent :
    (seen names : List String)
    → IsFresh seen names
      ↔ (AllDifferent names × ((k : String) → contains k names ≡ true → contains k seen ≡ false))
unfolding contains
IsFresh-AllDifferent seen [] = (λ h. (tt, λ k e. ground (arith, e)), λ v. tt)
IsFresh-AllDifferent seen (name ∷ names) =
    let rest = IsFresh-AllDifferent (name ∷ seen) names in
    (
      λ h.
          let r = rest.0 h.1 in
          (
            (ground (arith, r.1 name, eq_iff name name), r.0),
            λ k e. ground (arith, r.1 k, eq_iff name k, h.0),
          ),
      λ v. (
        ground (arith, v.1 name, eq_iff name name),
        rest.1 (v.0.1, λ k e. ground (arith, v.1 k, eq_iff name k, v.0.0)),
      ),
    )

pub IsFresh-from_nothing : (names : List String) → IsFresh [] names ↔ AllDifferent names
unfolding contains
IsFresh-from_nothing names =
    let all = IsFresh-AllDifferent [] names in (λ h. (all.0 h).0, λ d. all.1 (d, λ k e. refl))
