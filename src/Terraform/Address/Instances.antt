-- ===== src/Terraform/Address/Instances.antt =====
-- The instances of a resource have its address.
use terracost.Prelude.{
  String, ◌≡◌, sym, ap, ◌∙◌, inl, inr, Bool, true, false, not, ◌&&◌, false≢true, arith, Bool-cases,
}
use Prim.Native.Char.{Char}
use text.Mathlib.TextLemmas.{cons-append, nil-append}
use terracost.Aws.Text.{◌<>◌}
use terracost.Terraform.Address.{opens, closes, has_close, strip, clean_resource_address}

-- A text without `[`.
abbrev pub opens_nothing : String → Bool
opens_nothing String.[] = true
opens_nothing (String.◌∷◌ c s) = not (opens c) && opens_nothing s

strip-append :
    (name rest : String)
    → opens_nothing name ≡ true
    → strip false (name <> rest) ≡ name <> strip false rest
strip-append String.[] rest h =
    ap (strip false) (nil-append rest) ∙ sym (nil-append (strip false rest))
strip-append (String.◌∷◌ c s) rest h =
    ap (strip false) (cons-append c s rest)
    ∙ (elim (Bool-cases (opens c)) [
      | inl e ↦ absurd (false≢true (rw e at h))
      | inr e ↦ rw e (ap (String.◌∷◌ c) (strip-append s rest (rw e at h)))
    ])
    ∙ sym (cons-append c s (strip false rest))

cons_text : (c : Char) (rest : String) → String.◌∷◌ c String.[] <> rest ≡ String.◌∷◌ c rest
cons_text c rest = cons-append c String.[] rest ∙ ap (String.◌∷◌ c) (nil-append rest)

has_close-append : (key rest : String) → has_close (key <> String.◌∷◌ "]" rest) ≡ true
has_close-append String.[] rest = ap has_close (nil-append (String.◌∷◌ "]" rest))
has_close-append (String.◌∷◌ c s) rest =
    ap has_close (cons-append c s (String.◌∷◌ "]" rest)) ∙ ground (arith, has_close-append s rest)

strip_key :
    (key rest : String)
    → has_close key ≡ false
    → strip true (key <> String.◌∷◌ "]" rest) ≡ strip false rest
strip_key String.[] rest h = ap (strip true) (nil-append (String.◌∷◌ "]" rest))
strip_key (String.◌∷◌ c s) rest h =
    ap (strip true) (cons-append c s (String.◌∷◌ "]" rest)) ∙ elim (Bool-cases (closes c)) [
      | inl e ↦ absurd (false≢true (sym (rw e at h)))
      | inr e ↦ rw (e, strip) (strip_key s rest (rw e at h))
    ]

-- If a name has no `[` and a key no `]`, the key in its brackets is left out after the name, and the
-- rest is cleaned.
pub clean_resource_address-instance :
    (name key rest : String)
    → opens_nothing name ≡ true
    → has_close key ≡ false
    → clean_resource_address (name <> "[" <> key <> "]" <> rest)
      ≡ name <> clean_resource_address rest
unfolding clean_resource_address
clean_resource_address-instance name key rest h k =
    strip-append name ("[" <> key <> "]" <> rest) h
    ∙ ap (λ t. name <> t)
        (ap (strip false) (
            cons_text "[" (key <> "]" <> rest)
            ∙ ap (λ t. String.◌∷◌ "[" (key <> t)) (cons_text "]" rest))
          ∙ rw has_close-append (strip_key key rest k))
