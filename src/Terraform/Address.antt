-- ===== src/Terraform/Address.antt =====
-- terraform/plan.go: `cleanResourceAddresss`, which replaces every match of `\[[^\]]*\]` by nothing. A
-- match begins at a `[` that some `]` follows, and ends at the first of these.
pub mod Instances
use terracost.Prelude.{
  ℕ, zero, suc, ◌+◌, ◌-◌, ◌*◌, ◌/◌, ◌%◌, ◌≤◌, ◌<◌, String, ◌≡◌, refl, sym, ap, ◌∙◌, subst, ◌≢◌, ◌↔◌,
  ◌⊎◌, inl, inr, Bool, true, false, not, ◌&&◌, ◌||◌, false≢true, Option, none, some, List, [], ◌∷◌,
  ◌++◌, map, arith, ◌==◌, eq_iff, eq_refl, ltb, leb, eqb, if◌then◌else◌, Bool-cases, Option-cases,
  is_some, length, length-append, All, All-append, List-cases,
}
use Prim.Native.Char.{Char, code}

abbrev pub opens : Char → Bool
opens c = eqb (code c) b'['

abbrev pub closes : Char → Bool
closes c = eqb (code c) b']'

abbrev pub has_close : String → Bool
has_close String.[] = false
has_close (String.◌∷◌ c s) = closes c || has_close s

-- the text after a match, or outside of one, is kept; `inside` says where the rest begins
abbrev pub strip : Bool → String → String
strip inside String.[] = String.[]
strip true (String.◌∷◌ c s) = strip (not (closes c)) s
strip false (String.◌∷◌ c s) =
    let kept = strip false s in
    let cut = strip true s in if opens c && has_close s then cut else String.◌∷◌ c kept

-- `cleanResourceAddresss`
unfoldable pub clean_resource_address : String → String
clean_resource_address ra = strip false ra
