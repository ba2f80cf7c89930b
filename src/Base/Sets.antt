-- ===== src/Base/Sets.antt =====
-- Lists of numbers as sets, and how many items of a list pass a test.
use Prim.Native.Nat.{ℕ, suc, ◌≤◌, ◌<◌}
use mathlib.Core.Path.{◌≡◌, refl, ◌∙◌, sym, ap, subst}
use mathlib.Core.Logic.{inl, inr}
use mathlib.Core.Bool.{Bool, true, false, ◌&&◌, ◌||◌}
use mathlib.Core.List.{List, [], ◌∷◌, ◌++◌, map}
use native.Mathlib.Omega.{arith}
use kiry.Base.Tests.{◌==◌, nat_eq, nat_beq_iff, Bool-cases, if◌then◌else◌}
use kiry.Base.Lists.{length, contains, keep, any, All, Among}

pub contains-append :
    (xs ys : List ℕ) (a : ℕ) → contains (xs ++ ys) a ≡ (contains xs a || contains ys a)
contains-append [] ys a = refl
contains-append (x ∷ xs) ys a = ground (arith, contains-append xs ys a)

pub contains-keep :
    (p : ℕ → Bool) (xs : List ℕ) (a : ℕ) → contains (keep p xs) a ≡ (contains xs a && p a)
contains-keep p [] a = refl
contains-keep p (x ∷ xs) a = elim (Bool-cases (x == a)) [
  | inl same ↦
      let e : x ≡ a = (nat_beq_iff x a).0 same in
      rw e (elim (Bool-cases (p a)) [
        | inl passes ↦ ground (arith, passes, contains-keep p xs a)
        | inr stops ↦ ground (arith, stops, contains-keep p xs a)
      ])
  | inr apart ↦ ground (arith, apart, contains-keep p xs a)
]

-- No item passes the test, so none of those in the list does.
pub any-false :
    (p : ℕ → Bool) (xs : List ℕ) (a : ℕ) → any p xs ≡ false → contains xs a ≡ true → p a ≡ false
any-false p [] a h m = absurd (cc m)
any-false p (x ∷ xs) a h m = elim (Bool-cases (x == a)) [
  | inl same ↦ let e : x ≡ a = (nat_beq_iff x a).0 same in rw (← e) (ground arith)
  | inr apart ↦ any-false p xs a (ground arith) (ground arith)
]

-- Some item passes the test.
pub any-true :
    (p : ℕ → Bool) (xs : List ℕ)
    → any p xs ≡ true
    → (a : ℕ) × ((contains xs a ≡ true) × (p a ≡ true))
any-true p [] h = absurd (cc h)
any-true p (x ∷ xs) h = elim (Bool-cases (p x)) [
  | inl here ↦ (x, (ground (arith, (nat_beq_iff x x).1 refl), here))
  | inr later ↦ let (a, (m, pa)) = any-true p xs (ground arith) in (a, (ground arith, pa))
]

pub length-keep-le :
    (p q : ℕ → Bool) (xs : List ℕ)
    → ((x : ℕ) → p x ≡ true → q x ≡ true)
    → length (keep p xs) ≤ length (keep q xs)
length-keep-le p q [] f = omega arith
length-keep-le p q (x ∷ xs) f = elim (Bool-cases (p x)) [
  | inl passes ↦ ground (arith, passes, f x passes, length-keep-le p q xs f)
  | inr stops ↦ ground (arith, stops, length-keep-le p q xs f)
]

-- A test that also stops some item of the list keeps fewer.
pub length-keep-lt :
    (p q : ℕ → Bool) (xs : List ℕ) (a : ℕ)
    → ((x : ℕ) → p x ≡ true → q x ≡ true)
    → contains xs a ≡ true
    → p a ≡ false
    → q a ≡ true
    → length (keep p xs) < length (keep q xs)
length-keep-lt p q [] a f m stops passes = absurd (cc m)
length-keep-lt p q (x ∷ xs) a f m stops passes = elim (Bool-cases (x == a)) [
  | inl same ↦
      let e : x ≡ a = (nat_beq_iff x a).0 same in
      rw e (ground (arith, stops, passes, length-keep-le p q xs f))
  | inr apart ↦
      let less = length-keep-lt p q xs a f (ground arith) stops passes in
      elim (Bool-cases (p x)) [
        | inl here ↦ ground (arith, here, f x here, less)
        | inr stopped ↦ ground (arith, stopped, less)
      ]
]

pub length-keep_all : (xs : List ℕ) → length (keep (λ _. true) xs) ≡ length xs
length-keep_all [] = refl
length-keep_all (x ∷ xs) = ap suc (length-keep_all xs)

pub length-keep-le-length : (p : ℕ → Bool) (xs : List ℕ) → length (keep p xs) ≤ length xs
length-keep-le-length p [] = omega arith
length-keep-le-length p (x ∷ xs) = ground (arith, length-keep-le-length p xs)

pub All-contains :
    {P : ℕ → Type 0} (xs : List ℕ) → ((a : ℕ) → contains xs a ≡ true → P a) → All P xs
All-contains [] f = tt
All-contains (x ∷ xs) f =
    (f x (ground (arith, (nat_beq_iff x x).1 refl)), All-contains xs (λ a m. f a (ground arith)))

-- What stands in the images of a list, and among the items of a list that pass a test.
module _ {A : Type 0} where
  pub Among-map :
      {B : Type 0} (f : A → B) (xs : List A) (t : B)
      → Among t (map f xs)
      → (x : A) × Among x xs × (t ≡ f x)
  Among-map f [] t h = absurd h
  Among-map f (y ∷ xs) t (inl e) = (y, inl refl, e)
  Among-map f (y ∷ xs) t (inr h) = let (x, there, e) = Among-map f xs t h in (x, inr there, e)

  pub map-Among :
      {B : Type 0} (f : A → B) (xs : List A) (x : A) → Among x xs → Among (f x) (map f xs)
  map-Among f [] x h = absurd h
  map-Among f (y ∷ xs) x (inl e) = inl (ap f e)
  map-Among f (y ∷ xs) x (inr h) = inr (map-Among f xs x h)

  pub Among-keep :
      (p : A → Bool) (xs : List A) (x : A) → Among x (keep p xs) → Among x xs × (p x ≡ true)
  Among-keep p [] x h = absurd h
  Among-keep p (y ∷ xs) x h = elim (Bool-cases (p y)) [
    | inl passes ↦
        head (subst (λ b. Among x (if b then y ∷ keep p xs else keep p xs)) passes h) passes
          (Among-keep p xs x)
    | inr stops ↦
        let (there, ok) =
          Among-keep p xs x
            (subst (λ b. Among x (if b then y ∷ keep p xs else keep p xs)) stops h) in
        (inr there, ok)
  ]
    where
      -- The first item, or one behind it.
      head :
          Among x (y ∷ keep p xs)
          → p y ≡ true
          → (Among x (keep p xs) → Among x xs × (p x ≡ true))
          → Among x (y ∷ xs) × (p x ≡ true)
      head (inl e) passes behind = (inl e, ap p e ∙ passes)
      head (inr there) passes behind = let (among, ok) = behind there in (inr among, ok)

  pub keep-Among :
      (p : A → Bool) (xs : List A) (x : A) → Among x xs → p x ≡ true → Among x (keep p xs)
  keep-Among p [] x h ok = absurd h
  keep-Among p (y ∷ xs) x (inl e) ok =
      subst (λ b. Among x (if b then y ∷ keep p xs else keep p xs)) (sym ok ∙ ap p e) (inl e)
  keep-Among p (y ∷ xs) x (inr h) ok = elim (Bool-cases (p y)) [
    | inl passes ↦
        subst (λ b. Among x (if b then y ∷ keep p xs else keep p xs)) (sym passes)
          (inr (keep-Among p xs x h ok))
    | inr stops ↦
        subst (λ b. Among x (if b then y ∷ keep p xs else keep p xs)) (sym stops)
          (keep-Among p xs x h ok)
  ]
