-- ===== src/Os/Laws.antt =====
-- Histories that an action makes longer.
use forcola.Prelude.{
  ◌≤◌, ◌≡◌, refl, ap, sym, ◌∙◌, ◌∷◌, Bool, true, false, some, arith, Option-cases, inl, inr,
}
use forcola.Os.{Action, send_frame, History, Env, IsClock, M, ◌>>=◌, when}

-- `k` is `h` with more actions behind it.
pub data Grows (h : History) : History → Type 0 where
  here : Grows h h
  add : {k : History} (a : Action) → Grows h k → Grows h (a ∷ k)

pub Grows-trans : {h k l : History} → Grows h k → Grows k l → Grows h l
Grows-trans g here = g
Grows-trans g (add a f) = add a (Grows-trans g f)

-- `m` only adds to the history.
abbrev pub Extends : {A : Type 0} → M A → Type 0
Extends m = (h : History) → Grows h (m h).1

-- So the clock does not go back over it.
pub now-Grows : (env : Env) {h k : History} → IsClock env → Grows h k → env.now h ≤ env.now k
now-Grows env c here = omega arith
now-Grows env c (add {k = k} a g) = omega (arith, now-Grows env c g, c.forward a k)

pub Extends->>= :
    {A B : Type 0} (m : M A) (f : A → M B)
    → Extends m
    → ((a : A) → Extends (f a))
    → Extends (m >>= f)
Extends->>= m f x y h = elim (Option-cases (m h).0) [
  | inl e ↦ rw (e, ◌>>=◌) (x h)
  | inr (a, e) ↦ rw (e, ◌>>=◌) (Grows-trans (x h) (y a (m h).1))
]

-- A bind behind a call that returned.
pub >>=-returned :
    {A B : Type 0} (m : M A) (f : A → M B) (a : A) (h k : History)
    → m h ≡ (some a, k)
    → (m >>= f) h ≡ f a k
>>=-returned m f a h k e = rw (ap (λ r. r.0) e, ◌>>=◌) (ap (λ r. f a r.1) e)

-- `m` leaves alone what `f` reads off a history.
abbrev pub Keeps {ℓ} : {X : Type ℓ} {A : Type 0} → (History → X) → M A → Type ℓ
Keeps f m = (h : History) → f (m h).1 ≡ f h

pub Keeps->>= {ℓ} :
    {X : Type ℓ} {A B : Type 0} (f : History → X) (m : M A) (k : A → M B)
    → Keeps f m
    → ((a : A) → Keeps f (k a))
    → Keeps f (m >>= k)
Keeps->>= f m k x y h = elim (Option-cases (m h).0) [
  | inl e ↦ rw (e, ◌>>=◌) (x h)
  | inr (a, e) ↦ rw (e, ◌>>=◌) (y a (m h).1 ∙ x h)
]

pub Keeps-when {ℓ} :
    {X : Type ℓ} (f : History → X) (b : Bool) (a : Action)
    → ((h : History) → f (a ∷ h) ≡ f h)
    → Keeps f (when b a)
Keeps-when f true a q h = q h
Keeps-when f false a q h = refl

-- What reads nothing but the frames that were sent.
abbrev pub is_send : Action → Bool
is_send (send_frame tag payload) = true
is_send _ = false

abbrev pub ReadsSends {ℓ} : {X : Type ℓ} → (History → X) → Type ℓ
ReadsSends f = (a : Action) (h : History) → is_send a ≡ false → f (a ∷ h) ≡ f h

-- `m` returns, with some result.
abbrev pub Returns : {A : Type 0} → M A → Type 0
Returns {A = A} m = (h : History) → (a : A) × (k : History) × (m h ≡ (some a, k))

pub Returns->>= :
    {A B : Type 0} (m : M A) (f : A → M B)
    → Returns m
    → ((a : A) → Returns (f a))
    → Returns (m >>= f)
Returns->>= m f x y h =
    let (a, k, e) = x h in let (b, l, d) = y a k in (b, l, >>=-returned m f a h k e ∙ d)

pub when-Returns : (b : Bool) (a : Action) → Returns (when b a)
when-Returns true a h = (tt, a ∷ h, refl)
when-Returns false a h = (tt, h, refl)

pub Keeps-returned {ℓ} :
    {X : Type ℓ} {A : Type 0} (f : History → X) (m : M A) (a : A) (h k : History)
    → Keeps f m
    → m h ≡ (some a, k)
    → f k ≡ f h
Keeps-returned f m a h k keeps e = sym (ap (λ r. f r.1) e) ∙ keeps h
