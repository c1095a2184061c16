-- ===== src/Controller/Labels.antt =====
-- internal/controller/controller.go, labelsMatch: whether a scale set already has the labels of
-- the config. A label is its name, the only field that the code reads.
use elastic_fruit_runner.Base.{
  suc, ◌≡◌, ◌≢◌, ◌↔◌, refl, sym, ◌∙◌, Bool, true, false, String, List, [], ◌∷◌, arith, length, eqb,
  contains, contains_self, erase, contains-erase_ne, AllDifferent, eq_iff, ◌==◌, if◌then◌else◌,
  Bool-cases, inl, inr,
}

-- The second loop of `labelsMatch`: the names of `a` are the keys of the set.
unfoldable pub all_in : List String → List String → Bool
all_in a [] = true
all_in a (l ∷ b) = let rest = all_in a b in if contains l a then rest else false

unfoldable pub labels_match : List String → List String → Bool
unfolding all_in
labels_match a b = if eqb (length a) (length b) then all_in a b else false

all_in-contains :
    (a b : List String) (k : String) → all_in a b ≡ true → contains k b ≡ true → contains k a ≡ true
unfolding all_in contains
all_in-contains a [] k h m = absurd (ground arith)
all_in-contains a (l ∷ b) k h m = ground (arith, eq_iff l k, all_in-contains a b k)

length-erase :
    (x : String) (a : List String) → contains x a ≡ true → suc (length (erase x a)) ≡ length a
unfolding erase contains
length-erase x [] h = absurd (ground arith)
length-erase x (y ∷ a) h = ground (arith, length-erase x a)

all_in-erase :
    (x : String) (a b : List String)
    → contains x b ≡ false
    → all_in a b ≡ true
    → all_in (erase x a) b ≡ true
unfolding all_in contains
all_in-erase x a [] n h = refl
all_in-erase x a (l ∷ b) n h =
    ground (arith, eq_iff l x, eq_iff x l, contains-erase_ne x l a, all_in-erase x a b)

-- The pigeonhole: `b` fills up `a`.
all_in-covers :
    (a b : List String)
    → AllDifferent b
    → length a ≡ length b
    → all_in a b ≡ true
    → (k : String) → contains k a ≡ true
    → contains k b ≡ true
unfolding all_in contains
all_in-covers [] [] d e h k m = m
all_in-covers (y ∷ a) [] d e h k m = absurd (omega arith)
all_in-covers a (l ∷ b) d e h k m =
    let inside : contains l a ≡ true = ground arith in
    let shorter : length (erase l a) ≡ length b = omega (arith, length-erase l a inside) in
    let rest = all_in-erase l a b d.0 (ground arith) in
    elim (Bool-cases (l == k)) [
      | inl same ↦ rw same
      | inr other ↦
          let apart : l ≢ k = λ p. ground (arith, eq_iff l k) in
          rw other
            (all_in-covers (erase l a) b d.1 shorter rest k (contains-erase_ne l k a apart ∙ m))
    ]

contains-all_in :
    (a b : List String)
    → ((k : String) → contains k b ≡ true → contains k a ≡ true)
    → all_in a b ≡ true
unfolding all_in contains
contains-all_in a [] h = refl
contains-all_in a (l ∷ b) h =
    let first = h l (contains_self l b) in
    rw first (contains-all_in a b (λ k m. h k (ground (arith, eq_iff l k))))

same_length : (a b : List String) → labels_match a b ≡ true → length a ≡ length b
unfolding labels_match
same_length a b h = ground arith

labels_match-all_in : (a b : List String) → labels_match a b ≡ true → all_in a b ≡ true
unfolding labels_match
labels_match-all_in a b h = ground arith

-- If the wanted labels are all different, the test succeeds exactly if both lists have the same
-- length and the same names, in any order.
pub labels_match_iff :
    (a b : List String)
    → AllDifferent b
    → (labels_match a b ≡ true)
      ↔ ((length a ≡ length b) × ((k : String) → contains k a ≡ contains k b))
unfolding labels_match
labels_match_iff a b d = (
  λ h.
      let inside = labels_match-all_in a b h in
      let size = same_length a b h in
      (
        size,
        λ k. elim (Bool-cases (contains k b)) [
          | inl m ↦ all_in-contains a b k inside m ∙ sym m
          | inr m ↦ elim (Bool-cases (contains k a)) [
            | inl n ↦ n ∙ sym (all_in-covers a b d size inside k n)
            | inr n ↦ n ∙ sym m
          ]
        ],
      ),
  λ h. let inside = contains-all_in a b (λ k m. h.1 k ∙ m) in ground (arith, h.0),
)
