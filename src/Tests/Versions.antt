-- ===== src/Tests/Versions.antt =====
-- Versions of three digits, such as 4.1.2, as a stand-in for github.com/blang/semver.
use Prim.Native.Nat.{Ordering}
use mathlib.Core.List.{Memᴰ}
use mathlib.Core.List.Memᴰ
use golang_fb_mirror.Base.{
  ℕ, ◌+◌, ◌-◌, ◌*◌, ◌/◌, ◌%◌, ◌≡◌, sym, subst, ◌↔◌, inl, inr, true, false, ◌&&◌, Option, none, some,
  List, [], ◌∷◌, if◌then◌else◌, ltb, leb, ◌==◌, ℕ_eq, Bool-cases, Memᴰ-cons, arith,
}
use golang_fb_mirror.Base.Text.{Str}
use golang_fb_mirror.Semver.{Semver, Ascending, converse, not_gt}

abbrev pub digits : ℕ → Str → Option ℕ
digits v [] = some v
digits v (c ∷ s) = elim (c == 46) [
  | true ↦ digits v s
  | false ↦ if leb 48 c && ltb c 58 then digits (v * 10 + (c - 48)) s else none
]

abbrev pub order : ℕ → ℕ → Ordering
order a b = if ltb a b then Ordering.lt else if ltb b a then Ordering.gt else Ordering.eq

pub order_flip : (v w : ℕ) → order w v ≡ converse (order v w)
order_flip v w = ground arith

pub order_trans :
    (u v w : ℕ) → not_gt (order u v) ≡ true → not_gt (order v w) ≡ true → not_gt (order u w) ≡ true
order_trans u v w p q = ground arith

abbrev pub add : ℕ → List ℕ → List ℕ
add v [] = v ∷ []
add v (w ∷ ws) = if leb v w then v ∷ w ∷ ws else w ∷ add v ws

abbrev pub sorted : List ℕ → List ℕ
sorted [] = []
sorted (v ∷ vs) = add v (sorted vs)

add-mem : (u v : ℕ) (ws : List ℕ) → Memᴰ u (add v ws) ↔ Memᴰ u (v ∷ ws)
add-mem u v [] = (λ i. i, λ i. i)
add-mem u v (w ∷ ws) = elim (Bool-cases (leb v w)) [
  | inl h ↦
      subst (λ b. Memᴰ u (if b then v ∷ w ∷ ws else w ∷ add v ws) ↔ Memᴰ u (v ∷ w ∷ ws)) (sym h)
        (λ i. i, λ i. i)
  | inr h ↦
      subst (λ b. Memᴰ u (if b then v ∷ w ∷ ws else w ∷ add v ws) ↔ Memᴰ u (v ∷ w ∷ ws)) (sym h)
        (
          (λ i. elim (Memᴰ.cases_cons i) [
            | inl e ↦ Memᴰ.tail (Memᴰ.head e)
            | inr j ↦ elim (Memᴰ.cases_cons ((add-mem u v ws).0 j)) [
              | inl e ↦ Memᴰ.head e
              | inr k ↦ Memᴰ.tail (Memᴰ.tail k)
            ]
          ]),
          (λ i. elim (Memᴰ.cases_cons i) [
            | inl e ↦ Memᴰ.tail ((add-mem u v ws).1 (Memᴰ.head e))
            | inr j ↦ elim (Memᴰ.cases_cons j) [
              | inl e ↦ Memᴰ.head e
              | inr k ↦ Memᴰ.tail ((add-mem u v ws).1 (Memᴰ.tail k))
            ]
          ]),
        )
]

pub sorted-mem : (u : ℕ) (vs : List ℕ) → Memᴰ u (sorted vs) ↔ Memᴰ u vs
sorted-mem u [] = (λ i. i, λ i. i)
sorted-mem u (v ∷ vs) =
    ground
      (arith, add-mem u v (sorted vs), sorted-mem u vs, Memᴰ-cons u v vs, Memᴰ-cons u v (sorted vs))

abbrev IsAscending : List ℕ → Type 0
IsAscending = Ascending (λ v w. not_gt (order v w))

add-IsAscending : (v : ℕ) (ws : List ℕ) → IsAscending ws → IsAscending (add v ws)
add-IsAscending v [] a = ((λ u i. absurd (Memᴰ.not-nil i)), tt)
add-IsAscending v (w ∷ ws) (below, a) = elim (Bool-cases (leb v w)) [
  | inl h ↦
      subst (λ b. IsAscending (if b then v ∷ w ∷ ws else w ∷ add v ws)) (sym h)
        (
          (λ u i. elim (Memᴰ.cases_cons i) [
            | inl e ↦ ground (arith, h, e)
            | inr j ↦ ground (arith, h, below u j)
          ]),
          (below, a),
        )
  | inr h ↦
      subst (λ b. IsAscending (if b then v ∷ w ∷ ws else w ∷ add v ws)) (sym h)
        (
          (λ u i. elim (Memᴰ.cases_cons ((add-mem u v ws).0 i)) [
            | inl e ↦ ground (arith, h, e)
            | inr j ↦ below u j
          ]),
          add-IsAscending v ws a,
        )
]

pub sorted-IsAscending : (vs : List ℕ) → IsAscending (sorted vs)
sorted-IsAscending [] = tt
sorted-IsAscending (v ∷ vs) = add-IsAscending v (sorted vs) (sorted-IsAscending vs)

abbrev pub digit_versions : Semver
digit_versions = record {
  Version = ℕ;
  parse = digits 0;
  to_string = λ v. (48 + v / 100) ∷ 46 ∷ (48 + v / 10 % 10) ∷ 46 ∷ (48 + v % 10) ∷ [];
  compare = order;
  sort = sorted;
  major = λ v. v / 100;
  minor = λ v. v / 10 % 10;
  with_minor = λ v n. v / 100 * 100 + n * 10 + v % 10;
  show_nat = λ n. (48 + n) ∷ [];
  zero_version = 0;
  compare_flip = order_flip;
  compare_trans = order_trans;
  sort_mem = sorted-mem;
  sort_ascending = sorted-IsAscending;
}
