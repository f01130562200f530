-- ===== src/TreeMap.antt =====
-- The ordered map of the standard library (BTreeMap): an association list in the order of its keys, which
-- is the order of its iterators.
use madmax_artiq_zynq.Base.{
  ℕ, ◌≡◌, ◌↔◌, refl, sym, ap, subst, Bool, true, false, ◌&&◌, ◌||◌, Option, none, some, List, [],
  ◌∷◌, ltb, ◌==◌, if◌then◌else◌, Bool-cases, inl, inr, ==_iff,
}

pub record Ordered (K : Type 0) : Type 0 where
  pub same : K → K → Bool
  pub before : K → K → Bool
  pub same_iff : (a b : K) → (same a b ≡ true) ↔ (a ≡ b)

instance abbrev pub numbers : Ordered ℕ
numbers = record { same = ◌==◌; before = ltb; same_iff = ==_iff }

-- Lexicographic, like the pairs of the standard library.
both_true : (x y : Bool) → (x && y) ≡ true → (x ≡ true) × (y ≡ true)
both_true true y e = (refl, e)
both_true false y e = absurd (cc e)

pub pairs_iff : (p q : ℕ × ℕ) → (((p.0 == q.0) && (p.1 == q.1)) ≡ true) ↔ (p ≡ q)
pairs_iff (a, b) (c, d) = (
  λ e. (let (h, k) = both_true (a == c) (b == d) e in cc ((==_iff a c).0 h, (==_iff b d).0 k)),
  λ e. rw ((==_iff a c).1 (ap (λ p. p.0) e), (==_iff b d).1 (ap (λ p. p.1) e)) refl,
)

instance abbrev pub pairs : Ordered (ℕ × ℕ)
pairs = record {
  same = λ p q. (p.0 == q.0) && (p.1 == q.1);
  before = λ p q. ltb p.0 q.0 || ((p.0 == q.0) && ltb p.1 q.1);
  same_iff = pairs_iff;
}

-- Strings, as their bytes.
unfoldable pub same_name : List ℕ → List ℕ → Bool
same_name [] [] = true
same_name [] (d ∷ ds) = false
same_name (c ∷ cs) [] = false
same_name (c ∷ cs) (d ∷ ds) = (c == d) && same_name cs ds

unfoldable pub name_before : List ℕ → List ℕ → Bool
name_before [] [] = false
name_before [] (d ∷ ds) = true
name_before (c ∷ cs) [] = false
name_before (c ∷ cs) (d ∷ ds) = ltb c d || ((c == d) && name_before cs ds)

pub names_iff : (a b : List ℕ) → (same_name a b ≡ true) ↔ (a ≡ b)
unfolding same_name
names_iff [] [] = (λ e. refl, λ e. refl)
names_iff [] (d ∷ ds) = (λ e. absurd (cc e), λ e. absurd (cc e))
names_iff (c ∷ cs) [] = (λ e. absurd (cc e), λ e. absurd (cc e))
names_iff (c ∷ cs) (d ∷ ds) = (
  λ e.
      (let (h, k) = both_true (c == d) (same_name cs ds) e in
        cc ((==_iff c d).0 h, (names_iff cs ds).0 k)),
  λ e. rw ((==_iff c d).1 (cc e), (names_iff cs ds).1 (cc e)) refl,
)

instance abbrev pub names : Ordered (List ℕ)
names = record { same = same_name; before = name_before; same_iff = names_iff }

module _ {K : Type 0} ⦃o : Ordered K⦄ where
  same_refl : (k : K) → o.same k k ≡ true
  same_refl k = (o.same_iff k k).1 refl

  same_swap : (a b : K) → o.same a b ≡ false → o.same b a ≡ false
  same_swap a b ne = elim (Bool-cases (o.same b a)) [
    | inl e ↦ absurd (cc (ne, (o.same_iff a b).1 (sym ((o.same_iff b a).0 e))))
    | inr e ↦ e
  ]

module _ {K V : Type 0} ⦃o : Ordered K⦄ where
  unfoldable pub get : K → List (K × V) → Option V
  get key [] = none
  get key ((k, v) ∷ map) = let rest = get key map in if o.same key k then some v else rest

  unfoldable pub insert : K → V → List (K × V) → List (K × V)
  insert key value [] = (key, value) ∷ []
  insert key value ((k, v) ∷ map) =
      let rest = insert key value map in
      if o.same key k
      then (key, value) ∷ map
      else if o.before key k
      then (key, value) ∷ (k, v) ∷ map
      else (k, v) ∷ rest

  unfoldable pub remove : K → List (K × V) → List (K × V)
  remove key [] = []
  remove key ((k, v) ∷ map) =
      let rest = remove key map in if o.same key k then rest else (k, v) ∷ rest

  pub get-insert :
      (key : K) (value : V) (map : List (K × V)) → get key (insert key value map) ≡ some value
  unfolding get insert
  get-insert key value [] = rw (same_refl key) refl
  get-insert key value ((k, v) ∷ map) = elim (Bool-cases (o.same key k)) [
    | inl e ↦ rw (e, same_refl key) refl
    | inr e ↦ elim (Bool-cases (o.before key k)) [
      | inl b ↦ rw (e, b, same_refl key) refl
      | inr b ↦ rw (e, b, e) (get-insert key value map)
    ]
  ]

  -- Another key keeps its value.
  pub get-insert_other :
      (other key : K) (value : V) (map : List (K × V))
      → o.same other key ≡ false
      → get other (insert key value map) ≡ get other map
  unfolding get insert
  get-insert_other other key value [] ne = rw ne refl
  get-insert_other other key value ((k, v) ∷ map) ne = elim (Bool-cases (o.same key k)) [
    | inl e ↦ rw (e, ne, subst (λ x. o.same other x ≡ false) ((o.same_iff key k).0 e) ne) refl
    | inr e ↦ elim (Bool-cases (o.before key k)) [
      | inl b ↦ rw (e, b, ne) refl
      | inr b ↦ rw (e, b, get-insert_other other key value map ne) refl
    ]
  ]

  pub get-remove :
      (other key : K) (map : List (K × V))
      → get other (remove key map) ≡ (if o.same other key then none else get other map)
  unfolding get remove
  get-remove other key [] = elim (Bool-cases (o.same other key)) [
    | inl h ↦ rw h refl
    | inr h ↦ rw h refl
  ]
  get-remove other key ((k, v) ∷ map) = elim (Bool-cases (o.same key k)) [
    | inl e ↦
        rw (e, ← (o.same_iff key k).0 e, get-remove other key map)
          (elim (Bool-cases (o.same other key)) [ inl h ↦ rw h refl | inr h ↦ rw h refl ])
    | inr e ↦ rw e (elim (Bool-cases (o.same other k)) [
      | inl h ↦ rw (h, (o.same_iff other k).0 h, same_swap key k e) refl
      | inr h ↦ rw (h, get-remove other key map) refl
    ])
  ]
