-- ===== src/Effect.antt =====
-- Go functions that may fail, and Go functions that also act on the world: the API servers, the
-- caches and the objects behind pointers. The world comes back beside an error too, since what was
-- done before the error stays done.
use cloud_provider_cherry.Prelude.{String, ◌≡◌, refl, ap, ◌⊎◌, inl, inr}

-- An `error`: its fixed text, the value `cloudprovider.InstanceNotFound`, or a text wrapped round another error by `fmt.Errorf("…: %w", err)`.
pub data Error : Type 0 where
  message : String → Error
  instance_not_found : Error
  wrapped : String → Error → Error

pub data Result {ℓ} (A : Type ℓ) : Type ℓ where
  ok : A → Result A
  err : Error → Result A

-- `if err != nil { return …, fmt.Errorf("…: %w", err) }`
abbrev pub wrap {ℓ} : {A : Type ℓ} → String → Result A → Result A
wrap text (ok a) = ok a
wrap text (err e) = err (wrapped text e)

abbrev pub Action {ℓ} : Type ℓ → Type ℓ → Type ℓ
Action W A = W → Result A × W

module _ {ℓ} {W A : Type ℓ} where
  abbrev pub pure : A → Action W A
  pure a w = (ok a, w)

  abbrev pub fail : Error → Action W A
  fail e w = (err e, w)

  abbrev pub lift : Result A → Action W A
  lift r w = (r, w)

  abbrev pub wrapping : String → Action W A → Action W A
  wrapping text m w = let (r, w') = m w in (wrap text r, w')

module _ {ℓ} {W A B : Type ℓ} where
  abbrev pub then_do : Result A → (A → Action W B) → Action W B
  then_do (ok a) f w = f a w
  then_do (err e) f w = (err e, w)

  infixl 10 ◌>>=◌ ◌>>◌
  abbrev pub ◌>>=◌ : Action W A → (A → Action W B) → Action W B
  ◌>>=◌ m f w = let (r, w') = m w in then_do r f w'

  abbrev pub ◌>>◌ : Action W A → Action W B → Action W B
  m >> n = m >>= λ _. n

  -- A chain that succeeds: its first part succeeded, and the rest did from there.
  pub >>=-eq-ok :
      (m : Action W A) (f : A → Action W B) (w : W) {b : B} {w₂ : W}
      → (m >>= f) w ≡ (ok b, w₂)
      → (a : A) × (w₁ : W) × (m w ≡ (ok a, w₁)) × (f a w₁ ≡ (ok b, w₂))
  >>=-eq-ok m f w {b} {w₂} h = split (m w) refl h
    where
      split :
          (r : Result A × W)
          → m w ≡ r
          → then_do r.0 f r.1 ≡ (ok b, w₂)
          → (a : A) × (w₁ : W) × (m w ≡ (ok a, w₁)) × (f a w₁ ≡ (ok b, w₂))
      split (ok a, w₁) e h = (a, w₁, e, h)
      split (err x, w₁) e h = cc

  -- A chain whose first part has succeeded goes on from there.
  pub >>=-of_ok :
      (m : Action W A) (f : A → Action W B) (w : W) {a : A} {w₁ : W}
      → m w ≡ (ok a, w₁)
      → (m >>= f) w ≡ f a w₁
  >>=-of_ok m f w h = ap (λ (r : Result A × W). then_do r.0 f r.1) h

  -- The same of a chain that begins with a result that needs no world.
  pub lift->>=-eq-ok :
      (r : Result A) (f : A → Action W B) (w : W) {b : B} {w₂ : W}
      → (lift r >>= f) w ≡ (ok b, w₂)
      → (a : A) × (r ≡ ok a) × (f a w ≡ (ok b, w₂))
  lift->>=-eq-ok (ok a) f w h = (a, refl, h)
  lift->>=-eq-ok (err e) f w h = cc

module _ {ℓ} {W A : Type ℓ} where
  -- A wrapped call that succeeds has succeeded.
  pub wrapping-eq-ok :
      (text : String) (m : Action W A) (w : W) {a : A} {w' : W}
      → wrapping text m w ≡ (ok a, w')
      → m w ≡ (ok a, w')
  wrapping-eq-ok text m w {a} {w'} h = split (m w) refl h
    where
      split :
          (r : Result A × W) → m w ≡ r → wrapping text (λ _. r) w ≡ (ok a, w') → m w ≡ (ok a, w')
      split (ok b, w₁) e h = cc
      split (err x, w₁) e h = cc

pub Result-cases {ℓ} :
    {A : Type ℓ} (r : Result A) → ((e : Error) × (r ≡ err e)) ⊎ ((a : A) × (r ≡ ok a))
Result-cases (err e) = inl (e, refl)
Result-cases (ok a) = inr (a, refl)

pub ok_inj {ℓ} : {A : Type ℓ} {a b : A} → ok a ≡ ok b → a ≡ b
ok_inj e = cc

pub ok-ne-err {ℓ κ} : {A : Type ℓ} {B : Type κ} {e : Error} {b : A} → err e ≡ ok b → B
ok-ne-err h = cc

pub wrap-eq-ok {ℓ} :
    {A : Type ℓ} (text : String) (r : Result A) {a : A} → wrap text r ≡ ok a → r ≡ ok a
wrap-eq-ok text (ok a) h = h
wrap-eq-ok text (err e) h = cc

module _ {ℓ} {W A : Type ℓ} where
  pub pure-eq-ok : {a b : A} {w w' : W} → pure a w ≡ (ok b, w') → (a ≡ b) × (w ≡ w')
  pure-eq-ok h = (ok_inj (ap (λ (r : Result A × W). r.0) h), ap (λ (r : Result A × W). r.1) h)

  -- A call comes to an error or to a result, and leaves a world.
  pub Action-cases :
      (m : Action W A) (w : W)
      → ((e : Error) × (w' : W) × (m w ≡ (err e, w'))) ⊎ ((a : A) × (w' : W) × (m w ≡ (ok a, w')))
  Action-cases m w = split (m w) refl
    where
      split :
          (r : Result A × W)
          → m w ≡ r
          → ((e : Error) × (w' : W) × (m w ≡ (err e, w')))
            ⊎ ((a : A) × (w' : W) × (m w ≡ (ok a, w')))
      split (err e, w') h = inl (e, w', h)
      split (ok a, w') h = inr (a, w', h)
