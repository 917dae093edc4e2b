-- ===== src/Terraform/Providers/Chosen.antt =====
-- The providers that a plan's configuration gives.
use terracost.Prelude.{
  String, ◌≡◌, refl, sym, ap, ◌∙◌, inl, inr, Bool, false, ◌||◌, Option, none, some, List, [], ◌∷◌,
  arith, ◌==◌, eq_iff, eq_refl, if◌then◌else◌, Bool-cases, Option-cases, All,
}
use terracost.Errors.{Result, ok, ◌>>=◌, >>=-eq-ok}
use terracost.Dict.{Dict, lookup, insert, IsMap, lookup-insert}
use terracost.Terraform.Providers.{Initializer, put_some, collect, match_all, initializer_map}

module _ {W : Type 0} where
  lookup-put_some_other :
      (k j : String) (w : Option W) (m : Dict W)
      → (k == j) ≡ false
      → lookup j (put_some k w m) ≡ lookup j m
  lookup-put_some_other k j none m h = refl
  lookup-put_some_other k j (some w) m h = lookup-insert k j w m ∙ rw h

  lookup-put_some :
      (k : String) (w : Option W) (m : Dict W) → lookup k m ≡ none → lookup k (put_some k w m) ≡ w
  lookup-put_some k none m h = h
  lookup-put_some k (some w) m h = lookup-insert k k w m ∙ rw (eq_refl k)

module _ {V W : Type 0} (f : String → V → Result (Option W)) where
  -- An entry that is not in the map is not changed.
  lookup-collect_other :
      (out : Dict W) (m : Dict V) (res : Dict W) (k : String)
      → collect f out m ≡ ok res
      → lookup k m ≡ none
      → lookup k res ≡ lookup k out
  unfolding collect lookup
  lookup-collect_other out [] res k e h = cc e
  lookup-collect_other out ((j, v) ∷ m) res k e h =
      let (w, p, e') = >>=-eq-ok (f j v) (λ w. collect f (put_some j w out) m) e in
      elim (Bool-cases (j == k)) [
        | inl q ↦ cc (rw q at h)
        | inr q ↦
            lookup-collect_other (put_some j w out) m res k e' (rw q at h)
            ∙ lookup-put_some_other j k w out q
      ]

  -- What the function gives for an entry is what the result has for it.
  pub lookup-collect :
      (out : Dict W) (m : Dict V) (res : Dict W) (k : String) (v : V)
      → IsMap m
      → collect f out m ≡ ok res
      → lookup k out ≡ none
      → lookup k m ≡ some v
      → f k v ≡ ok (lookup k res)
  unfolding collect lookup
  lookup-collect out [] res k v h e new found = cc
  lookup-collect out ((j, u) ∷ m) res k v (fresh, h) e new found =
      let (w, p, e') = >>=-eq-ok (f j u) (λ w. collect f (put_some j w out) m) e in
      elim (Bool-cases (j == k)) [
        | inl q ↦
            let jk : j ≡ k = (eq_iff j k).0 q in
            let same : some u ≡ some v = rw q at found in
            let kept : lookup k res ≡ w =
              lookup-collect_other (put_some j w out) m res k e' (rw (← jk) fresh)
              ∙ rw (← jk) (lookup-put_some j w out (rw jk new)) in
            cc (p, jk, same, kept)
        | inr q ↦
            lookup-collect (put_some j w out) m res k v h e'
              (lookup-put_some_other j k w out q ∙ new) (rw q at found)
      ]

  -- If the function returns a value for every entry, so does the loop.
  pub collect-total :
      (out : Dict W) (m : Dict V)
      → All (λ e. (w : Option W) × (f e.0 e.1 ≡ ok w)) m
      → (res : Dict W) × (collect f out m ≡ ok res)
  unfolding collect
  collect-total out [] h = (out, refl)
  collect-total out ((k, v) ∷ m) ((w, e), h) =
      let (res, p) = collect-total (put_some k w out) m h in (res, rw (e, ◌>>=◌) p)

-- What the loop makes of the entry of a map that may be missing.
abbrev pub outcome_at :
    {V W : Type 0} → (String → V → Result (Option W)) → String → Option V → Result (Option W)
outcome_at f k none = ok none
outcome_at f k (some v) = f k v

pub collect_all :
    {V W : Type 0} (f : String → V → Result (Option W)) (m : Dict V) (res : Dict W) (k : String)
    → IsMap m
    → collect f [] m ≡ ok res
    → outcome_at f k (lookup k m) ≡ ok (lookup k res)
collect_all f m res k h e = elim (Option-cases (lookup k m)) [
  | inl p ↦
      rw p (ap (λ w. ok w) (sym (lookup-collect_other f [] m res k e p ∙ unfold lookup in refl)))
  | inr (v, p) ↦ rw p (lookup-collect f [] m res k v h e (unfold lookup in refl) p)
]

abbrev mentions : String → List String → Bool
mentions name [] = false
mentions name (n ∷ names) = n == name || mentions name names

module _ {P : Type 0} where
  -- The last initializer that matches a name, or else the one there was.
  abbrev pub last_match :
      String → List (Initializer P) → Option (Initializer P) → Option (Initializer P)
  last_match name [] old = old
  last_match name (pi ∷ pis) old =
      last_match name pis (if mentions name pi.match_names then some pi else old)

  lookup-match_all :
      (name : String) (pi : Initializer P) (names : List String) (m : Dict (Initializer P))
      → lookup name (match_all pi names m)
        ≡ (if mentions name names then some pi else lookup name m)
  lookup-match_all name pi [] m = refl
  lookup-match_all name pi (n ∷ names) m =
      lookup-match_all name pi names (insert n pi m) ∙ rw lookup-insert (ground arith)

  -- The map of a plan has for every name the last of the initializers that match it.
  pub lookup-initializer_map :
      (name : String) (pis : List (Initializer P)) (m : Dict (Initializer P))
      → lookup name (initializer_map pis m) ≡ last_match name pis (lookup name m)
  unfolding initializer_map
  lookup-initializer_map name [] m = refl
  lookup-initializer_map name (pi ∷ pis) m =
      lookup-initializer_map name pis (match_all pi pi.match_names m)
      ∙ ap (last_match name pis) (lookup-match_all name pi pi.match_names m)
