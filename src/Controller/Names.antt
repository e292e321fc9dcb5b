-- ===== src/Controller/Names.antt =====
-- The names that the collector gives to profiles are read back by the controller.
use kapprofiler.Base.{
  if_true, if_false, sym, ◌≡◌, refl, true, false, String, ◌∙◌, ap, Bool-cases, inl, inr,
  if◌then◌else◌, ◌==◌, string_comparable, split, join, trim_suffix, to_lower, is_dashless, rest_of,
  join-split, split-dashless, trim_suffix-append,
}
use Prim.Native.String.{◌++◌ as joined}
use text.Mathlib.TextLemmas as Text
use kapprofiler.Collector.Names.{get_application_profile_name}
use kapprofiler.Controller.Defs.{object_name}
use kapprofiler.Kubernetes.{Object, label}

-- What stands after the first dash.
after_dash :
    (kind s : String)
    → is_dashless kind ≡ true
    → join (rest_of (split (joined kind (joined "-" s)))) ≡ s
after_dash kind s h = ap (λ l. join (rest_of l)) (split-dashless kind s h) ∙ join-split s

object_name-own :
    (store : String) (object : Object)
    → (store == "") ≡ true
    → object_name store object ≡ (object.namespace, join (rest_of (split object.name)))
unfolding object_name
object_name-own store object h = rw (h, object_name) refl

object_name-stored :
    (store : String) (object : Object)
    → (store == "") ≡ false
    → object_name store object ≡ (
      label "kapprofiler.kubescape.io/namespace" object.labels,
      trim_suffix
          (joined "-" (label "kapprofiler.kubescape.io/namespace" object.labels))
          (join (rest_of (split object.name))),
    )
unfolding object_name
object_name-stored store object h = rw (h, object_name) refl

name-own :
    (store namespace kind name : String)
    → (store == "") ≡ true
    → get_application_profile_name store namespace kind name
      ≡ joined (to_lower kind) (joined "-" (to_lower name))
unfolding get_application_profile_name
name-own store namespace kind name h = rw (h, get_application_profile_name) refl

name-stored :
    (store namespace kind name : String)
    → (store == "") ≡ false
    → get_application_profile_name store namespace kind name
      ≡ joined (to_lower kind) (joined "-" (joined (to_lower name) (joined "-" namespace)))
unfolding get_application_profile_name
name-stored store namespace kind name h =
    rw (h, get_application_profile_name)
      (Text.append_assoc (to_lower kind) (joined "-" (to_lower name)) (joined "-" namespace)
        ∙ ap (joined (to_lower kind))
            (Text.append_assoc "-" (to_lower name) (joined "-" namespace)))

-- A profile that stands under the name that `GetApplicationProfileName` gives for a kind, whose
-- lower case has no dash, a name and a namespace, is read back by the controller as that namespace
-- and the lower case of that name: with no store namespace if it stands in that namespace, and
-- with one if it has the label for it.
pub object_name-get_application_profile_name :
    (store namespace kind name : String) (object : Object)
    → is_dashless (to_lower kind) ≡ true
    → object.name ≡ get_application_profile_name store namespace kind name
    → (if store == ""
        then object.namespace
        else label "kapprofiler.kubescape.io/namespace" object.labels)
      ≡ namespace
    → object_name store object ≡ (namespace, to_lower name)
object_name-get_application_profile_name store namespace kind name object h named kept =
    let label_of = label "kapprofiler.kubescape.io/namespace" object.labels in
    let named_part = λ (s : String). join (rest_of (split s)) in
    elim (Bool-cases (store == "")) [
      | inl own ↦
          let first = sym (if_true (store == "") object.namespace label_of own) ∙ kept in
          let second =
            ap named_part (named ∙ name-own store namespace kind name own)
            ∙ after_dash (to_lower kind) (to_lower name) h in
          object_name-own store object own ∙ λ i. (first i, second i)
      | inr stored ↦
          let first = sym (if_false (store == "") object.namespace label_of stored) ∙ kept in
          let second =
            ap (λ s. trim_suffix (joined "-" s) (named_part object.name)) first
            ∙ ap (λ s. trim_suffix (joined "-" namespace) (named_part s))
                (named ∙ name-stored store namespace kind name stored)
            ∙ ap (trim_suffix (joined "-" namespace))
                (after_dash (to_lower kind) (joined (to_lower name) (joined "-" namespace)) h)
            ∙ trim_suffix-append (joined "-" namespace) (to_lower name) in
          object_name-stored store object stored ∙ λ i. (first i, second i)
    ]
