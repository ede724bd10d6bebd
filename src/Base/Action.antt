-- ===== src/Base/Action.antt =====
-- Go code with effects: a function of the state to a result and the state that it leaves, also
-- after an error. A traced state is what lies outside the program and the list of the calls that
-- the program has made.
pub mod Logs
use mathlib.Core.Path.{◌≡◌, refl}
use mathlib.Core.Bool.{Bool, true, false}
use mathlib.Core.List.{List, [], ◌∷◌, ◌++◌}
use native.Mathlib.Omega.{arith}
use golang_fb_mirror.Base.Outcome.{Result, ok, err, panic, out_of_fuel}

abbrev pub Action {ℓ} : Type 0 → Type ℓ → Type ℓ
Action S A = S → Result A × S

module _ {ℓ κ} {S : Type 0} {A : Type ℓ} {B : Type κ} where
  abbrev pub resume : Result A × S → (A → Action S B) → Result B × S
  resume (ok a, s) k = k a s
  resume (err e, s) k = (err e, s)
  resume (panic, s) k = (panic, s)
  resume (out_of_fuel, s) k = (out_of_fuel, s)

  infixl 5 ◌>>=◌ ◌>>◌
  abbrev pub ◌>>=◌ : Action S A → (A → Action S B) → Action S B
  ◌>>=◌ m k s = resume (m s) k

  abbrev pub ◌>>◌ : Action S A → Action S B → Action S B
  m >> k = m >>= (λ a. k)

pub resume_assoc {ℓ κ ι} :
    {S : Type 0} {A : Type ℓ} {B : Type κ} {C : Type ι} (x : Result A × S) (f : A → Action S B)
    (k : B → Action S C)
    → resume (resume x f) k ≡ resume x (λ a s. resume (f a s) k)
resume_assoc (ok a, s) f k = refl
resume_assoc (err e, s) f k = refl
resume_assoc (panic, s) f k = refl
resume_assoc (out_of_fuel, s) f k = refl

pub resume-ext {ℓ κ} :
    {S : Type 0} {A : Type ℓ} {B : Type κ} (x : Result A × S) (k k' : A → Action S B)
    → ((a : A) (s : S) → k a s ≡ k' a s)
    → resume x k ≡ resume x k'
resume-ext (ok a, s) k k' h = h a s
resume-ext (err e, s) k k' h = refl
resume-ext (panic, s) k k' h = refl
resume-ext (out_of_fuel, s) k k' h = refl

-- If a chain of two actions succeeds, both do.
pub resume-eq-ok {ℓ κ} :
    {S : Type 0} {A : Type ℓ} {B : Type κ} {b : B} {s' : S} (x : Result A × S) (k : A → Action S B)
    → resume x k ≡ (ok b, s')
    → (a : A) × (t : S) × (x ≡ (ok a, t)) × (k a t ≡ (ok b, s'))
resume-eq-ok (ok a, t) k h = (a, t, refl, h)
resume-eq-ok (err e, t) k h = absurd (ground arith)
resume-eq-ok (panic, t) k h = absurd (ground arith)
resume-eq-ok (out_of_fuel, t) k h = absurd (ground arith)

pub resume-ok {ℓ} : {S : Type 0} {A : Type ℓ} (x : Result A × S) → resume x (λ a s. (ok a, s)) ≡ x
resume-ok (ok a, s) = refl
resume-ok (err e, s) = refl
resume-ok (panic, s) = refl
resume-ok (out_of_fuel, s) = refl

module _ {ℓ} {S : Type 0} {A : Type ℓ} where
  -- A result that does not depend on the state, or only reads it.
  abbrev pub lift : Result A → Action S A
  lift r s = (r, s)

  abbrev pub ask : (S → Result A) → Action S A
  ask f s = (f s, s)

abbrev pub is_ok {ℓ} : {A : Type ℓ} → Result A → Bool
is_ok (ok a) = true
is_ok _ = false

pub record Traced (W E : Type 0) : Type 0 where
  pub world : W
  pub trace : List E

module _ {W E : Type 0} where
  -- A call outside, recorded with whether it succeeded.
  abbrev pub call {ℓ} : {A : Type ℓ} → (W → Result A × W) → (Bool → E) → Action (Traced W E) A
  call f event s =
      let (r, w) = f s.world in (r, record { world = w; trace = s.trace ++ event (is_ok r) ∷ [] })
