-- ===== src/Base/Action/Logs.antt =====
-- What an action adds to the trace, in terms of its result.
use mathlib.Core.Path.{◌≡◌, refl, ap, ◌∙◌}
use mathlib.Core.Bool.{Bool, true, false}
use mathlib.Core.List.{List, [], ◌∷◌, ◌++◌, append_assoc}
use golang_fb_mirror.Base.Outcome.{Result, ok, err, panic, out_of_fuel}
use golang_fb_mirror.Base.Action.{Action, Traced, resume, ◌>>=◌, call, is_ok}

-- Not a normal return.
abbrev pub Failed {ℓ} : {A : Type ℓ} → Result A → Type 0
Failed (ok a) = ⊥
Failed _ = Unit

pub append_nil {ℓ} : {A : Type ℓ} (xs : List A) → xs ≡ xs ++ []
append_nil [] = refl
append_nil (x ∷ xs) = ap (◌∷◌ x) (append_nil xs)

module _ {W E : Type 0} where
  abbrev pub Adds {ℓ} :
      {A : Type ℓ} → (Result A → List E → Type 0) → Traced W E → Result A × Traced W E → Type 0
  Adds P s (r, s') = (t : List E) × (s'.trace ≡ s.trace ++ t) × P r t

  abbrev pub Logs {ℓ} : {A : Type ℓ} → (Result A → List E → Type 0) → Action (Traced W E) A → Type 0
  Logs P m = (s : Traced W E) → Adds P s (m s)

  -- An action that adds nothing.
  abbrev pub Quiet {ℓ} : {A : Type ℓ} → Action (Traced W E) A → Type 0
  Quiet m = (s : Traced W E) → (m s).1.trace ≡ s.trace

abbrev pub Stops {κ} : {E : Type 0} {B : Type κ} → (Result B → List E → Type 0) → List E → Type κ
Stops {B} P t = (r : Result B) → Failed r → P r t

module _ {ℓ κ} {W E : Type 0} {A : Type ℓ} {B : Type κ} (P : Result B → List E → Type 0) where
  resume-quiet :
      (s : Traced W E) (x : Result A × Traced W E) (k : A → Action (Traced W E) B)
      → x.1.trace ≡ s.trace
      → Stops P []
      → ((a : A) → Logs P (k a))
      → Adds P s (resume x k)
  resume-quiet s (ok a, s') k q stop h = let (t, e, p) = h a s' in (t, e ∙ ap (λ u. u ++ t) q, p)
  resume-quiet s (err e, s') k q stop h = ([], q ∙ append_nil s.trace, stop (err e) tt)
  resume-quiet s (panic, s') k q stop h = ([], q ∙ append_nil s.trace, stop panic tt)
  resume-quiet s (out_of_fuel, s') k q stop h = ([], q ∙ append_nil s.trace, stop out_of_fuel tt)

  -- A call without an event, before the rest.
  pub Logs-Quiet :
      (m : Action (Traced W E) A) (k : A → Action (Traced W E) B)
      → Quiet m
      → Stops P []
      → ((a : A) → Logs P (k a))
      → Logs P (m >>= k)
  Logs-Quiet m k q stop h s = resume-quiet s (m s) k (q s) stop h

  resume-call :
      (s : Traced W E) (r : Result A) (w : W) (event : Bool → E) (k : A → Action (Traced W E) B)
      → Stops P (event false ∷ [])
      → ((a : A) → Logs (λ r' t. P r' (event true ∷ t)) (k a))
      → Adds P s (resume (r, record { world = w; trace = s.trace ++ event (is_ok r) ∷ [] }) k)
  resume-call s (ok a) w event k stop h =
      let (t, e, p) = h a (record { world = w; trace = s.trace ++ event true ∷ [] }) in
      (event true ∷ t, e ∙ append_assoc s.trace (event true ∷ []) t, p)
  resume-call s (err e) w event k stop h = (event false ∷ [], refl, stop (err e) tt)
  resume-call s panic w event k stop h = (event false ∷ [], refl, stop panic tt)
  resume-call s out_of_fuel w event k stop h = (event false ∷ [], refl, stop out_of_fuel tt)

  -- A recorded call before the rest.
  pub Logs-call :
      (f : W → Result A × W) (event : Bool → E) (k : A → Action (Traced W E) B)
      → Stops P (event false ∷ [])
      → ((a : A) → Logs (λ r t. P r (event true ∷ t)) (k a))
      → Logs P (call f event >>= k)
  Logs-call f event k stop h s = resume-call s (f s.world).0 (f s.world).1 event k stop h

module _ {ℓ κ} {W E : Type 0} {A : Type ℓ} {B : Type κ} (P : Result B → List E → Type 0) where
  resume-ask :
      (s : Traced W E) (r : Result A) (k : A → Action (Traced W E) B)
      → Stops P []
      → ((a : A) → r ≡ ok a → Adds P s (k a s))
      → Adds P s (resume (r, s) k)
  resume-ask s (ok a) k stop h = h a refl
  resume-ask s (err e) k stop h = ([], append_nil s.trace, stop (err e) tt)
  resume-ask s panic k stop h = ([], append_nil s.trace, stop panic tt)
  resume-ask s out_of_fuel k stop h = ([], append_nil s.trace, stop out_of_fuel tt)

  -- A look at the state, before the rest, which knows what was seen.
  pub Logs-ask :
      (f : Traced W E → Result A) (k : A → Action (Traced W E) B)
      → Stops P []
      → ((s : Traced W E) (a : A) → f s ≡ ok a → Adds P s (k a s))
      → Logs P (λ s. resume (f s, s) k)
  Logs-ask f k stop h s = resume-ask s (f s) k stop (h s)

-- A recorded call at the end.
pub Logs-last {ℓ} :
    {W E : Type 0} {A : Type ℓ} (P : Result A → List E → Type 0) (f : W → Result A × W)
    (event : Bool → E)
    → ((r : Result A) → P r (event (is_ok r) ∷ []))
    → Logs P (call f event)
Logs-last P f event h s = (event (is_ok (f s.world).0) ∷ [], refl, h (f s.world).0)

-- A result at the end.
pub Logs-lift {ℓ} :
    {E : Type 0} {A : Type ℓ} (W : Type 0) (P : Result A → List E → Type 0) (r : Result A)
    → P r []
    → Logs {W = W} P (λ s. (r, s))
Logs-lift W P r h s = ([], append_nil s.trace, h)
