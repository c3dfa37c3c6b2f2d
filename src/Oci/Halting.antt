-- ===== src/Oci/Halting.antt =====
-- `inspect` of tools/oci_inspect.py always comes to an end: the one loop of it that no list bounds
-- never runs out of the turns that it is given.
use rebekah.Prelude.{
  ℕ, ◌≡◌, ◌≢◌, refl, ◌==◌, Bool, true, false, ◌&&◌, Option, none, some, List, [], ◌∷◌, inl, inr,
  Bool-cases,
}
use rebekah.Prelude.Text.{Text, text_eq}
use rebekah.Prelude.Dict.{Dict, lookup, insert}
use rebekah.Prelude.Exec.{ok, err}
use rebekah.Json.{Json, null, boolean, int, float, str, arr, obj}
use rebekah.Oci.Refusal.{Refusal, refused, endless, Checked, ◌>>=◌, each, ensure, require}
use rebekah.Oci.Disk.{
  Bytes, Host, Node, Disk, Descriptor, descriptor_of, read_blob, read, object_of,
}
use rebekah.Oci.Inspect.{
  Artifact, subject_of, artifact_of, scan, rate, rated, compared, link_all, refuse_cycles, present,
  listed, assess, inspect,
}
use rebekah.Oci.Acyclic.{prepared, refuse_cycles_decides}

pub data Halts {A : Type 0} : Checked A → Type 0 where
  returns : (a : A) → Halts (ok a)
  raises : (x : Refusal) → x ≢ endless → Halts (err x)

Halts-ne : {A : Type 0} {r : Checked A} → Halts r → r ≢ err endless
Halts-ne (returns a) e = cc e
Halts-ne (raises x n) e = n (cc e)

bind_with :
    {A B : Type 0} {first : Checked A} {next : A → Checked B}
    → Halts first
    → ((value : A) → first ≡ ok value → Halts (next value))
    → Halts (first >>= next)
bind_with (returns value) h = h value refl
bind_with (raises x n) h = raises x n

bind-Halts :
    {A B : Type 0} {first : Checked A} {next : A → Checked B}
    → Halts first
    → ((value : A) → Halts (next value))
    → Halts (first >>= next)
bind-Halts h h' = bind_with h (λ value e. h' value)

ensure-Halts : (test : Bool) (message : Text) → Halts (ensure test message)
ensure-Halts true message = returns tt
ensure-Halts false message = raises (refused message) (λ e. cc e)

require-Halts : {A : Type 0} (o : Option A) (message : Text) → Halts (require o message)
require-Halts none message = raises (refused message) (λ e. cc e)
require-Halts (some a) message = returns a

each-Halts :
    {A B : Type 0} (f : A → Checked B) → ((x : A) → Halts (f x)) → (xs : List A) → Halts (each f xs)
unfolding each
each-Halts f h [] = returns []
each-Halts f h (x ∷ xs) =
    bind-Halts (h x) (λ y. bind-Halts (each-Halts f h xs) (λ ys. returns (y ∷ ys)))

ruleset rules = (returns, bind-Halts, ensure-Halts, require-Halts, each-Halts)

descriptor_of-Halts : (limit : ℕ) (v : Json) → Halts (descriptor_of limit v)
unfolding descriptor_of
descriptor_of-Halts limit v = search rules

subject_of-Halts : (v : Json) → Halts (subject_of v)
unfolding subject_of
subject_of-Halts null = search rules
subject_of-Halts (boolean b) = search rules
subject_of-Halts (int n) = search rules
subject_of-Halts (float t) = search rules
subject_of-Halts (str s) = search rules
subject_of-Halts (arr vs) = search rules
subject_of-Halts (obj fs) = search rules

compared-Halts : (a : Artifact) (s : Descriptor) (o : Option Descriptor) → Halts (compared a s o)
compared-Halts a s none = search rules
compared-Halts a s (some t) =
    elim (Bool-cases (s.size == t.size && text_eq s.media_type t.media_type)) [
      | inl e ↦ rw e (search rules)
      | inr e ↦ rw e (raises _ (λ e'. cc e'))
    ]

rate-Halts : (seen : Dict Descriptor) (a : Artifact) → Halts (rate seen a)
unfolding rate
rate-Halts seen a = by_subject a.subject
  where
    by_subject : (o : Option Descriptor) → Halts (rated seen a o)
    by_subject none = search rules
    by_subject (some s) = compared-Halts a s (lookup s.digest seen)

present-Halts : (node : Node) → Halts (present node)
present-Halts node = elim (Bool-cases node.is_file) [
  | inl e ↦ rw e (search rules)
  | inr e ↦ rw e (raises _ (λ e'. cc e'))
]

module _ (h : Host) where
  object_of-Halts : (label : Text) (bytes : Bytes) → Halts (object_of h label bytes)
  unfolding object_of
  object_of-Halts label bytes = search rules

  module _ (disk : Disk) where
    read_blob-Halts : (limit : ℕ) (d : Descriptor) → Halts (read_blob h disk limit d)
    unfolding read_blob
    read_blob-Halts limit d = search rules

    read-Halts : (limit : ℕ) (v : Json) → Halts (read h disk limit v)
    unfolding read
    read-Halts limit v = search (rules, descriptor_of-Halts, read_blob-Halts)

    artifact_of-Halts : (v : Json) → Halts (artifact_of h disk v)
    unfolding artifact_of
    artifact_of-Halts v = search (rules, read-Halts, object_of-Halts, subject_of-Halts) depth 10

    scan-Halts : (vs : List Json) (seen : Dict Descriptor) → Halts (scan h disk vs seen)
    unfolding scan
    scan-Halts [] seen = search rules
    scan-Halts (v ∷ vs) seen = bind-Halts (artifact_of-Halts v) λ a.
        bind-Halts (ensure-Halts _ _)
          λ u. bind-Halts (scan-Halts vs (insert a.own.digest a.own seen)) λ rest. returns _

    listed-Halts : Halts (listed h disk)
    unfolding listed
    listed-Halts = search (rules, present-Halts, object_of-Halts) depth 12

    assess-Halts : (manifests : List Json) → Halts (assess h disk manifests)
    unfolding assess
    assess-Halts manifests = bind_with (scan-Halts manifests []) λ found e.
        bind_with (each-Halts (rate found.1) (rate-Halts found.1) found.0)
          λ passed e'. bind-Halts (checked found passed e e') λ u. returns _
      where
        checked :
            (found : List Artifact × Dict Descriptor) (passed : List Artifact)
            → scan h disk manifests [] ≡ ok found
            → each (rate found.1) found.0 ≡ ok passed
            → Halts (refuse_cycles (link_all passed))
        checked found passed e e' =
            let (distinct, resolved) = prepared h disk manifests found passed e e' in
            elim (refuse_cycles_decides (link_all passed) distinct resolved) [
              | inl v ↦ rw v.0 (returns tt)
              | inr v ↦ rw v.0 (raises _ (λ f. cc f))
            ]

    -- Whatever the layout holds and the host answers, an inspection ends: its walks along the
    -- subjects never need more turns than one for each artifact and one more.
    pub inspect_halts : inspect h disk ≢ err endless
    unfolding inspect
    inspect_halts = Halts-ne (bind-Halts listed-Halts assess-Halts)
