-- ===== src/Aws/Region/Table.antt =====
-- The tables of regions: names and codes are in bijection, and every code has a short name.
use terracost.Prelude.{
  String, ◌≡◌, refl, sym, ap, ◌∙◌, ◌≢◌, ◌↔◌, inl, inr, Bool, true, false, not, ◌&&◌, ◌||◌, none,
  some, [], ◌∷◌, arith, ◌==◌, eq_iff, eq_refl, Bool-cases, Option-cases,
}
use terracost.Dict.{Dict, lookup, insert}
use terracost.Aws.Region.{
  name_to_code, code_to_short_name, code_to_name, new_from_name, valid, get_region_to_short_name,
}

-- A test of every entry of a table.
abbrev pub every : (String → String → Bool) → Dict String → Bool
every p [] = true
every p ((k, v) ∷ m) = p k v && every p m

pub every_sound :
    (p : String → String → Bool) (m : Dict String) (k v : String)
    → every p m ≡ true
    → lookup k m ≡ some v
    → p k v ≡ true
unfolding lookup
every_sound p [] k v h e = cc
every_sound p ((j, w) ∷ m) k v h e = ground (arith, eq_iff j k, every_sound p m k v)

abbrev names_agree : String → String → Bool
names_agree code name = new_from_name name == code

names_checked : every names_agree code_to_name ≡ true
unfolding code_to_name new_from_name lookup insert
names_checked = refl

abbrev codes_agree : String → String → Bool
codes_agree name code = elim (lookup code code_to_name) [ some n ↦ n == name | none ↦ false ]

codes_checked : every codes_agree name_to_code ≡ true
unfolding code_to_name lookup insert
codes_checked = refl

name_found : (name c : String) → c ≢ "" → new_from_name name ≡ c → lookup name name_to_code ≡ some c
unfolding new_from_name
name_found name c ne e = ground arith

code_found : (name c : String) → codes_agree name c ≡ true → lookup c code_to_name ≡ some name
code_found name c h = elim (Option-cases (lookup c code_to_name)) [
  | inl p ↦ cc (rw (p, codes_agree) at h)
  | inr (n, p) ↦ p ∙ ap (λ (s : String). some s) ((eq_iff n name).0 (rw (p, codes_agree) at h))
]

-- `NewFromName` of a name is a code that is not empty exactly where `codeToName` has that name for the
-- code.
pub new_from_name_iff :
    (name c : String) → c ≢ "" → (new_from_name name ≡ c) ↔ (lookup c code_to_name ≡ some name)
new_from_name_iff name c ne = (
  λ e.
      code_found name c
        (every_sound codes_agree name_to_code name c codes_checked (name_found name c ne e)),
  λ e. (eq_iff _ c).0 (every_sound names_agree code_to_name c name names_checked e),
)

abbrev has_short_name : String → String → Bool
has_short_name code name = not (get_region_to_short_name code == "")

short_names_checked : every has_short_name code_to_name ≡ true
unfolding code_to_name get_region_to_short_name lookup insert
short_names_checked = refl

-- An entry whose short name is not `v` unless its key is `k`.
abbrev is_other : String → String → String → String → Bool
is_other k v k' v' = not (v' == v) || k' == k

-- No other region shares the short name `v` of `k`, unless that is `APS3`.
abbrev is_alone : String → String → Bool
is_alone k v = v == "APS3" || every (is_other k v) code_to_short_name

alone_checked : every is_alone code_to_short_name ≡ true
alone_checked = refl

short_name_of :
    (c : String)
    → get_region_to_short_name c ≢ ""
    → lookup c code_to_short_name ≡ some (get_region_to_short_name c)
unfolding get_region_to_short_name
short_name_of c ne = ground arith

pub valid-lookup :
    (c : String) → valid c ≡ true → (name : String) × (lookup c code_to_name ≡ some name)
unfolding valid
valid-lookup c h = ground arith

valid-short_name : (c : String) → valid c ≡ true → get_region_to_short_name c ≢ ""
valid-short_name c h =
    let (name, e) = valid-lookup c h in
    ground (
      arith,
      every_sound has_short_name code_to_name c name short_names_checked e,
      eq_iff (get_region_to_short_name c) "",
    )

only_key :
    (c c' s : String)
    → s ≢ "APS3"
    → is_alone c s ≡ true
    → lookup c' code_to_short_name ≡ some s
    → c ≡ c'
only_key c c' s ne a p = elim (Bool-cases (s == "APS3")) [
  | inl q ↦ absurd (ne ((eq_iff s "APS3").0 q))
  | inr q ↦
      let found = every_sound (is_other c s) code_to_short_name c' s (rw (q, is_alone) at a) p in
      sym ((eq_iff c' c).0 (rw (eq_refl s, is_other) at found))
]

-- Two valid regions with one short name are the same, unless the short name is `APS3`.
pub short_name_injective :
    (c c' : String)
    → valid c ≡ true
    → valid c' ≡ true
    → get_region_to_short_name c ≡ get_region_to_short_name c'
    → get_region_to_short_name c ≢ "APS3"
    → c ≡ c'
short_name_injective c c' h h' e ne =
    let s = get_region_to_short_name c in
    let p = short_name_of c (valid-short_name c h) in
    let p' = short_name_of c' (valid-short_name c' h') in
    only_key c c' s ne (every_sound is_alone code_to_short_name c s alone_checked p)
      (p' ∙ ap (λ (t : String). some t) (sym e))
