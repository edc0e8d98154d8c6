-- ===== src/Prelude/Faults.antt =====
-- Outcomes of code that C leaves undefined on some inputs: an index outside its array, or a
-- division by zero. `fault` stands for every such case.
use Prim.Native.Nat.{ℕ, zero, suc}
use mathlib.Core.Path.{◌≡◌, refl, sym, ap, subst, ◌∙◌}
use mathlib.Core.List.{List, [], ◌∷◌}
use mathlib.Core.Logic.{◌≢◌}
use native.Mathlib.Omega.{arith}
use Prim.Native.Nat.{◌<◌}
use mathlib.Core.Bool.{Bool, true, false}
use poste_italiane_simulatio.Prelude.Lists.{length, All, take}
use poste_italiane_simulatio.Prelude.Tests.{if◌then◌else◌}

pub data Outcome {ℓ} (A : Type ℓ) : Type ℓ where
  ok : A → Outcome A
  fault : Outcome A

-- What follows a step runs on the step's value, and not at all after a fault.
module _ {ℓ κ} {A : Type ℓ} {B : Type κ} where
  infixl 5 ◌>>=◌
  abbrev pub ◌>>=◌ : Outcome A → (A → Outcome B) → Outcome B
  fault >>= next = fault
  ok x >>= next = next x

  -- The value between two steps that both went well.
  pub >>=-eq-ok :
      (first : Outcome A) (next : A → Outcome B) {y : B}
      → (first >>= next) ≡ ok y
      → (x : A) × (first ≡ ok x) × (next x ≡ ok y)
  >>=-eq-ok fault next e = cc
  >>=-eq-ok (ok x) next e = (x, refl, e)

-- A read `xs[i]`.
abbrev pub read {ℓ} : {A : Type ℓ} → List A → ℕ → Outcome A
read [] i = fault
read (x ∷ xs) zero = ok x
read (x ∷ xs) (suc i) = read xs i

-- An update `xs[i] = f(xs[i])`.
abbrev pub modify {ℓ} : {A : Type ℓ} → List A → ℕ → (A → A) → Outcome (List A)
modify [] i f = fault
modify (x ∷ xs) zero f = ok (f x ∷ xs)
modify (x ∷ xs) (suc i) f = do ys ← modify xs i f; ok (x ∷ ys)

pub ok-injective {ℓ} : {A : Type ℓ} (a b : A) → ok a ≡ ok b → a ≡ b
ok-injective a b e = cc

module _ {ℓ} {A : Type ℓ} where
  pub read_total : (xs : List A) (i : ℕ) → i < length xs → (a : A) × (read xs i ≡ ok a)
  read_total [] i h = elim h [ ]
  read_total (x ∷ xs) zero h = (x, refl)
  read_total (x ∷ xs) (suc i) h = read_total xs i (omega arith)

  pub read-lt : (xs : List A) (i : ℕ) {a : A} → read xs i ≡ ok a → i < length xs
  read-lt [] i h = cc
  read-lt (x ∷ xs) zero h = omega arith
  read-lt (x ∷ xs) (suc i) h = omega (arith, read-lt xs i h)

  -- What an update in range gives, read back at its place and elsewhere.
  pub record IsModified (xs : List A) (i : ℕ) (f : A → A) (ys : List A) : Type ℓ where
    pub same_length : length ys ≡ length xs
    pub here : (a : A) → read xs i ≡ ok a → read ys i ≡ ok (f a)
    pub elsewhere : (j : ℕ) → i ≢ j → read ys j ≡ read xs j

  head_elsewhere : (x y : A) (xs : List A) (j : ℕ) → 0 ≢ j → read (y ∷ xs) j ≡ read (x ∷ xs) j
  head_elsewhere x y xs zero ne = absurd (ne refl)
  head_elsewhere x y xs (suc j) ne = refl

  tail_elsewhere :
      (x : A) (xs ys : List A) (i : ℕ)
      → ((j : ℕ) → i ≢ j → read ys j ≡ read xs j)
      → (j : ℕ) → suc i ≢ j
      → read (x ∷ ys) j ≡ read (x ∷ xs) j
  tail_elsewhere x xs ys i h zero ne = refl
  tail_elsewhere x xs ys i h (suc j) ne = h j (λ e. ne (ap suc e))

  pub modify_total :
      (xs : List A) (i : ℕ) (f : A → A)
      → i < length xs
      → (ys : List A) × (modify xs i f ≡ ok ys) × IsModified xs i f ys
  modify_total [] i f h = elim h [ ]
  modify_total (x ∷ xs) zero f h = (
    f x ∷ xs,
    refl,
    record {
      same_length = refl;
      here = λ a e. ap (λ (b : A). ok (f b)) (ok-injective x a e);
      elsewhere = head_elsewhere x (f x) xs;
    },
  )
  modify_total (x ∷ xs) (suc i) f h =
      let (ys, e, m) = modify_total xs i f (omega arith) in
      (
        x ∷ ys,
        rw e,
        record {
          same_length = omega (arith, m.same_length);
          here = m.here;
          elsewhere = tail_elsewhere x xs ys i m.elsewhere;
        },
      )

  modify-lt :
      (xs : List A) (i : ℕ) (f : A → A) {ys : List A} → modify xs i f ≡ ok ys → i < length xs
  modify-lt [] i f e = cc
  modify-lt (x ∷ xs) zero f e = omega arith
  modify-lt (x ∷ xs) (suc i) f e =
      let (zs, e', _) = >>=-eq-ok (modify xs i f) (λ zs. ok (x ∷ zs)) e in
      omega (arith, modify-lt xs i f e')

  -- An update that succeeds is one in range.
  pub modify-IsModified :
      (xs : List A) (i : ℕ) (f : A → A) (ys : List A) → modify xs i f ≡ ok ys → IsModified xs i f ys
  modify-IsModified xs i f ys e =
      let (zs, e', m) = modify_total xs i f (modify-lt xs i f e) in
      subst (λ ws. IsModified xs i f ws) (ok-injective zs ys (sym e' ∙ e)) m

-- A test between two computations that both succeed.
pub if_total {ℓ} :
    {A : Type ℓ} (b : Bool) (x y : Outcome A)
    → ((a : A) × (x ≡ ok a))
    → ((a : A) × (y ≡ ok a))
    → (a : A) × ((if b then x else y) ≡ ok a)
if_total true x y hx hy = hx
if_total false x y hx hy = hy

-- Whatever a computation gives, it is so.
abbrev pub Always : {A : Type 0} → (A → Type 0) → Outcome A → Type 0
Always Q o = (x : _) → o ≡ ok x → Q x

module _ {A : Type 0} (Q : A → Type 0) where
  pub Always-ok : (x : A) → Q x → Always Q (ok x)
  Always-ok x h y e = subst Q (ok-injective x y e) h

  pub Always-if :
      (b : Bool) (x y : Outcome A) → Always Q x → Always Q y → Always Q (if b then x else y)
  Always-if true x y hx hy = hx
  Always-if false x y hx hy = hy

  pub Always-bind :
      {B : Type 0} (m : Outcome B) (f : B → Outcome A)
      → ((x : B) → m ≡ ok x → Always Q (f x))
      → Always Q (m >>= f)
  Always-bind m f h y e = let (x, ex, ef) = >>=-eq-ok m f e in h x ex y ef

-- Elements that can be read one by one.
pub take-All {ℓ κ} :
    {A : Type ℓ} (P : A → Type κ) (n : ℕ) (xs : List A)
    → ((j : ℕ) → j < n → (a : A) × (read xs j ≡ ok a) × P a)
    → All P (take n xs)
take-All P zero xs h = tt
take-All P (suc n) [] h = tt
take-All P (suc n) (x ∷ xs) h =
    let (a, e, p) = h 0 (omega arith) in
    (subst P (sym (ok-injective x a e)) p, take-All P n xs (λ j lt. h (suc j) (omega arith)))
