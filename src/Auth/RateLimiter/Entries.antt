-- ===== src/Auth/RateLimiter/Entries.antt =====
-- The map of the kept times.
use text.Mathlib.Text.{◌==◌ as str_eq}
use text.Mathlib.TextEquality.{eq_iff}
use hop_and_barley_store.Prelude.{
  ℕ, suc, ◌≤◌, ◌≡◌, refl, sym, ap, ◌∙◌, subst, true, false, List, [], ◌∷◌, none, some, String,
  if◌then◌else◌, length, is_some, arith, inl, inr, Bool-cases,
}
use hop_and_barley_store.Auth.RateLimiter.{
  Attempts, get, set, delete, recent, or_empty, store, put_back, prune_expired, is_full, hour_ms,
  max_tracked_identities,
}

-- No identity has two entries.
abbrev pub IsMap : Attempts → Type 0
IsMap [] = Unit {0}
IsMap ((id, times) ∷ m) = (get id m ≡ none) × IsMap m

-- The times kept of an identity.
abbrev pub times_of : String → Attempts → List ℕ
times_of id m = or_empty (get id m)

pub same : (a b : String) → str_eq a b ≡ true → a ≡ b
same a b = (eq_iff a b).0

pub str_eq_comm : (a b : String) → str_eq a b ≡ str_eq b a
str_eq_comm a b = elim (Bool-cases (str_eq a b)) [
  | inl e ↦ subst (λ z. str_eq a z ≡ str_eq z a) (same a b e) refl
  | inr e ↦ elim (Bool-cases (str_eq b a)) [
    | inl f ↦ sym (subst (λ z. str_eq b z ≡ str_eq z b) (same b a f) refl)
    | inr f ↦ e ∙ sym f
  ]
]

pub same_test : (a b c : String) → str_eq a b ≡ true → str_eq a c ≡ str_eq b c
same_test a b c h = ap (λ z. str_eq z c) (same a b h)

pub same_get : (a b : String) (m : Attempts) → str_eq a b ≡ true → get a m ≡ get b m
same_get a b m h = ap (λ z. get z m) (same a b h)

module _ (x y : String) where
  pub get-set :
      (v : List ℕ) (m : Attempts) → get y (set x v m) ≡ (if str_eq x y then some v else get y m)
  unfolding get set
  get-set v [] = refl
  get-set v ((k, w) ∷ m) = elim (Bool-cases (str_eq k x)) [
    | inl e ↦ ground (arith, e, same_test k x y e)
    | inr e ↦ elim (Bool-cases (str_eq k y)) [
      | inl f ↦ ground (arith, e, f, same_test k y x f, str_eq_comm x y)
      | inr f ↦ ground (arith, e, f, get-set v m)
    ]
  ]

  pub get-delete :
      (m : Attempts) → IsMap m → get y (delete x m) ≡ (if str_eq x y then none else get y m)
  unfolding get delete
  get-delete [] k = ground arith
  get-delete ((i, w) ∷ m) k = elim (Bool-cases (str_eq i x)) [
    | inl e ↦ elim (Bool-cases (str_eq x y)) [
      | inl f ↦ ground (arith, e, f, k.0, same_get i x m e, same_get x y m f)
      | inr f ↦ ground (arith, e, f, same_test i x y e)
    ]
    | inr e ↦ elim (Bool-cases (str_eq i y)) [
      | inl f ↦ ground (arith, e, f, same_test i y x f, str_eq_comm x y)
      | inr f ↦ ground (arith, e, f, get-delete m k.1)
    ]
  ]

pub get-prune_none :
    (x : String) (now : ℕ) (m : Attempts) → get x m ≡ none → get x (prune_expired now m) ≡ none
unfolding get prune_expired
get-prune_none x now [] h = refl
get-prune_none x now ((i, w) ∷ m) h = ground (arith, get-prune_none x now m)

pub times_of-prune_expired :
    (y : String) (now : ℕ) (m : Attempts)
    → IsMap m
    → times_of y (prune_expired now m) ≡ recent hour_ms now (times_of y m)
unfolding get prune_expired
times_of-prune_expired y now [] k = refl
times_of-prune_expired y now ((i, w) ∷ m) k = elim (Bool-cases (str_eq i y)) [
  | inl f ↦ ground (arith, f, get-prune_none i now m k.0, same_get i y (prune_expired now m) f)
  | inr f ↦ ground (arith, f, times_of-prune_expired y now m k.1)
]

pub put_back-IsMap :
    (i : String) (ts : List ℕ) (m : Attempts) → get i m ≡ none → IsMap m → IsMap (put_back i ts m)
put_back-IsMap i [] m e k = k
put_back-IsMap i (t ∷ ts) m e k = (e, k)

pub prune_expired-IsMap : (now : ℕ) (m : Attempts) → IsMap m → IsMap (prune_expired now m)
unfolding prune_expired
prune_expired-IsMap now [] k = tt
prune_expired-IsMap now ((i, w) ∷ m) k =
    put_back-IsMap i (recent hour_ms now w) (prune_expired now m) (get-prune_none i now m k.0)
      (prune_expired-IsMap now m k.1)

pub set-IsMap : (x : String) (v : List ℕ) (m : Attempts) → IsMap m → IsMap (set x v m)
unfolding set get
set-IsMap x v [] k = (refl, tt)
set-IsMap x v ((i, w) ∷ m) k = elim (Bool-cases (str_eq i x)) [
  | inl e ↦ rw (e) k
  | inr e ↦ rw (e) (ground (arith, e, get-set x i v m, k.0, str_eq_comm x i), set-IsMap x v m k.1)
]

pub delete-IsMap : (x : String) (m : Attempts) → IsMap m → IsMap (delete x m)
unfolding delete get
delete-IsMap x [] k = tt
delete-IsMap x ((i, w) ∷ m) k = elim (Bool-cases (str_eq i x)) [
  | inl e ↦ rw (e) k.1
  | inr e ↦
      rw (e) (ground (arith, e, get-delete x i m k.1, k.0, str_eq_comm x i), delete-IsMap x m k.1)
]

pub times_of-store :
    (x y : String) (ts : List ℕ) (m : Attempts)
    → IsMap m
    → times_of y (store x ts m) ≡ (if str_eq x y then ts else times_of y m)
unfolding store
times_of-store x y [] m k = ground (arith, get-delete x y m k)
times_of-store x y (t ∷ ts) m k = ground (arith, get-set x y (t ∷ ts) m)

pub store-IsMap : (x : String) (ts : List ℕ) (m : Attempts) → IsMap m → IsMap (store x ts m)
unfolding store
store-IsMap x [] m k = delete-IsMap x m k
store-IsMap x (t ∷ ts) m k = set-IsMap x (t ∷ ts) m k

module _ (x : String) where
  length-set :
      (v : List ℕ) (m : Attempts)
      → length (set x v m) ≡ (if is_some (get x m) then length m else suc (length m))
  unfolding set get
  length-set v [] = refl
  length-set v ((i, w) ∷ m) = ground (arith, length-set v m)

  length-delete : (m : Attempts) → length (delete x m) ≤ length m
  unfolding delete
  length-delete [] = omega arith
  length-delete ((i, w) ∷ m) = ground (arith, length-delete m)

  -- An entry is stored in a place that it has, or in one that is free.
  pub length-store :
      (ts : List ℕ) (m : Attempts)
      → length m ≤ max_tracked_identities
      → is_full x m ≡ false
      → length (store x ts m) ≤ max_tracked_identities
  unfolding store
  length-store [] m h f = omega (arith, length-delete m)
  length-store (t ∷ ts) m h f = ground (arith, length-set (t ∷ ts) m)

pub length-prune_expired : (now : ℕ) (m : Attempts) → length (prune_expired now m) ≤ length m
unfolding prune_expired
length-prune_expired now [] = omega arith
length-prune_expired now ((i, w) ∷ m) = ground (arith, length-prune_expired now m)
