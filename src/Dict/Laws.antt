-- ===== src/Dict/Laws.antt =====
-- Reading after writing, and distinct keys.
use terracost.Prelude.{
  String, ◌≡◌, refl, ap, subst, inl, inr, true, false, ◌||◌, none, some, [], ◌∷◌, ◌++◌, arith, ◌==◌,
  eq_iff, eq_refl, if◌then◌else◌, Bool-cases, is_some, All, mem,
}
use terracost.Dict.Defs.{AllValues, Dict, keys, lookup, insert, IsMap}

module _ {ℓ} {V : Type ℓ} where
  pub lookup-insert :
      (written asked : String) (new : V) (m : Dict V)
      → lookup asked (insert written new m)
        ≡ (if written == asked then some new else lookup asked m)
  unfolding lookup insert
  lookup-insert written asked new [] = refl
  lookup-insert written asked new ((first, old) ∷ rest) = ground (
    arith,
    eq_iff first asked,
    eq_iff first written,
    eq_iff written asked,
    lookup-insert written asked new rest,
  )

  pub lookup-insert_self : (k : String) (v : V) (m : Dict V) → lookup k (insert k v m) ≡ some v
  lookup-insert_self k v m = rw lookup-insert (rw (eq_refl k))

  pub insert-IsMap : (k : String) (v : V) (m : Dict V) → IsMap m → IsMap (insert k v m)
  unfolding lookup insert
  insert-IsMap k v [] h = (refl, tt)
  insert-IsMap k v ((j, w) ∷ m) (fresh, h) = elim (Bool-cases (j == k)) [
    | inl e ↦ rw e (rw ((eq_iff j k).0 e) at fresh, h)
    | inr e ↦ rw e (rw lookup-insert (ground (arith, eq_iff k j, eq_iff j k)), insert-IsMap k v m h)
  ]

  -- A new key goes to the end.
  pub insert-eq-append :
      (k : String) (v : V) (m : Dict V) → lookup k m ≡ none → insert k v m ≡ m ++ (k, v) ∷ []
  unfolding lookup insert
  insert-eq-append k v [] h = refl
  insert-eq-append k v ((j, w) ∷ m) h = elim (Bool-cases (j == k)) [
    | inl e ↦ cc (rw e at h)
    | inr e ↦ rw e (ap (λ (t : Dict V). (j, w) ∷ t) (insert-eq-append k v m (rw e at h)))
  ]

  pub lookup-append_last :
      (k : String) (v : V) (m : Dict V) → lookup k m ≡ none → lookup k (m ++ (k, v) ∷ []) ≡ some v
  unfolding lookup
  lookup-append_last k v [] h = rw (eq_refl k)
  lookup-append_last k v ((j, w) ∷ m) h = elim (Bool-cases (j == k)) [
    | inl e ↦ cc (rw e at h)
    | inr e ↦ rw e (lookup-append_last k v m (rw e at h))
  ]

  pub lookup-append_ne :
      (k j : String) (v : V) (m : Dict V)
      → (k == j) ≡ false
      → lookup j m ≡ none
      → lookup j (m ++ (k, v) ∷ []) ≡ none
  unfolding lookup
  lookup-append_ne k j v [] e h = rw e
  lookup-append_ne k j v ((i, w) ∷ m) e h = elim (Bool-cases (i == j)) [
    | inl p ↦ cc (rw p at h)
    | inr p ↦ rw p (lookup-append_ne k j v m e (rw p at h))
  ]

  -- Writing the last key again changes its value alone.
  pub insert-append_last :
      (k : String) (v w : V) (m : Dict V)
      → lookup k m ≡ none
      → insert k w (m ++ (k, v) ∷ []) ≡ m ++ (k, w) ∷ []
  unfolding lookup insert
  insert-append_last k v w [] h = rw (eq_refl k)
  insert-append_last k v w ((j, u) ∷ m) h = elim (Bool-cases (j == k)) [
    | inl e ↦ cc (rw e at h)
    | inr e ↦ rw e (ap (λ (t : Dict V). (j, u) ∷ t) (insert-append_last k v w m (rw e at h)))
  ]

  -- What holds wherever a key is found holds of every entry.
  pub All-of_lookup {κ} :
      (P : String → V → Type κ) (m : Dict V)
      → IsMap m
      → ((k : String) (v : V) → lookup k m ≡ some v → P k v)
      → All (λ e. P e.0 e.1) m
  unfolding lookup
  All-of_lookup P [] h f = tt
  All-of_lookup P ((k, v) ∷ m) (fresh, h) f = (
    f k v (rw (eq_refl k)),
    All-of_lookup P m h (λ j w e. f j w (ground (arith, e, fresh, eq_iff k j))),
  )

module _ {ℓ} {V : Type ℓ} where
  pub mem-keys-insert :
      (a k : String) (v : V) (m : Dict V) → mem a (keys (insert k v m)) ≡ (k == a || mem a (keys m))
  unfolding insert
  mem-keys-insert a k v [] = refl
  mem-keys-insert a k v ((j, w) ∷ m) = ground (arith, eq_iff j k, mem-keys-insert a k v m)

  -- A key is in the map exactly where the list of its keys has it.
  pub is_some-lookup : (a : String) (m : Dict V) → is_some (lookup a m) ≡ mem a (keys m)
  unfolding lookup
  is_some-lookup a [] = refl
  is_some-lookup a ((j, w) ∷ m) = ground (arith, is_some-lookup a m)

  pub is_some-lookup-insert :
      (a k : String) (v : V) (m : Dict V)
      → is_some (lookup a (insert k v m)) ≡ (k == a || is_some (lookup a m))
  is_some-lookup-insert a k v m = rw lookup-insert (ground arith)

  -- A key that is not in a map is none of its keys.
  pub fresh_ne :
      (k l : String) (m : Dict V)
      → lookup k m ≡ none
      → is_some (lookup l m) ≡ true
      → (k == l) ≡ false
  fresh_ne k l m fresh h = elim (Bool-cases (k == l)) [
    | inl q ↦ cc (rw (← (eq_iff k l).0 q, fresh) at h)
    | inr q ↦ q
  ]

module _ {ℓ κ} {V : Type ℓ} {W : Type κ} where
  pub lookup-insert_fresh :
      (k l : String) (v : V) (m : Dict W) (m' : Dict V)
      → lookup k m ≡ none
      → is_some (lookup l m) ≡ true
      → lookup l (insert k v m') ≡ lookup l m'
  lookup-insert_fresh k l v m m' fresh h = rw lookup-insert (rw (fresh_ne k l m fresh h))

module _ {ℓ κ} {V : Type ℓ} (P : V → Type κ) where
  pub insert-AllValues :
      (k : String) (v : V) (m : Dict V) → P v → AllValues P m → AllValues P (insert k v m)
  unfolding insert
  insert-AllValues k v [] p h = (p, tt)
  insert-AllValues k v ((j, w) ∷ m) p (q, h) = elim (Bool-cases (j == k)) [
    | inl e ↦ rw e (p, h)
    | inr e ↦ rw e (q, insert-AllValues k v m p h)
  ]

  pub lookup-AllValues :
      (k : String) (v : V) (m : Dict V) → AllValues P m → lookup k m ≡ some v → P v
  unfolding lookup
  lookup-AllValues k v [] h e = cc
  lookup-AllValues k v ((j, w) ∷ m) (p, h) e = elim (Bool-cases (j == k)) [
    | inl q ↦ subst P {x = w} {y = v} (cc (rw q at e)) p
    | inr q ↦ lookup-AllValues k v m h (rw q at e)
  ]
