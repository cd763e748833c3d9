-- ===== src/Identity/Laws.antt =====
-- What identities promise: derived ones are canonical, and an identity has one kind.
use Prim.Native.String.{count, ◌++◌}
use text.Mathlib.TextLemmas.{append_inj, length-append}
use tidewise_ai.Prelude.{
  ℕ, ◌<◌, ◌^◌, String, true, false, ◌||◌, ◌≡◌, ◌≢◌, refl, sym, ap, ◌∙◌, inl, inr, Option, none,
  some, List, ◌∷◌, ok, err, bind-ok, Bool-cases, Option-cases, Result-cases, arith, str_eq,
  str_eq_to, str_eq_self,
}
use tidewise_ai.Prelude.Text.{
  all_chars, strip_prefix, strip_prefix-some, strip_prefix-append, str_mem-test, is_blank,
  trim_space,
}
use tidewise_ai.Identity.{
  UuidPackage, invalid_seed, registered_kinds, registered, well_formed, is_upper, prefix,
  trimmed_parts, join, no_parts, seeded, derive, canonical, parse_suffix, parse, is,
}

-- Documented behaviour of google/uuid: 36 characters, Parse reads what String writes, and a name
-- based UUID carries its version bits, so that it is not Nil.
pub record UuidLaws (uuid : UuidPackage) : Type 0 where
  pub length_36 : (n : ℕ) → n < 2 ^ 128 → count (uuid.to_string n) ≡ 36
  pub parse-to_string : (n : ℕ) → n < 2 ^ 128 → uuid.parse (uuid.to_string n) ≡ some n
  pub parse_fits : (s : String) (n : ℕ) → uuid.parse s ≡ some n → n < 2 ^ 128
  pub new_sha1_fits : (s : String) → uuid.new_sha1 s < 2 ^ 128
  pub new_sha1_ne_nil : (s : String) → uuid.new_sha1 s ≢ 0

registered-well_formed : (kind : String) → registered kind ≡ true → well_formed kind ≡ true
unfolding registered
registered-well_formed kind h =
    str_mem-test well_formed kind registered_kinds (unfold well_formed all_chars is_upper in refl) h

-- Every registered kind passes the checks on its letters.
pub prefix-registered : (kind : String) → registered kind ≡ true → prefix kind ≡ ok kind
unfolding prefix
prefix-registered kind h = rw (h, registered-well_formed kind h)

pub prefix-ok : (kind : String) {p : String} → prefix kind ≡ ok p → p ≡ kind
unfolding prefix
prefix-ok kind h = ground arith

module _ (uuid : UuidPackage) where
  canonical-ok :
      (suffix : String) (o : Option ℕ) {n : ℕ}
      → canonical uuid suffix o ≡ ok n
      → (o ≡ some n) × (uuid.to_string n ≡ suffix)
  unfolding canonical
  canonical-ok suffix none h = cc
  canonical-ok suffix (some m) {n} h =
      let e : m ≡ n = ground arith in
      let t : str_eq (uuid.to_string m) suffix ≡ true = ground arith in
      (ap some e, ap uuid.to_string (sym e) ∙ str_eq_to t)

  parse_suffix-ok :
      (kind value : String) {n : ℕ}
      → parse_suffix uuid (strip_prefix kind value) ≡ ok n
      → (value ≡ kind ++ uuid.to_string n) × (uuid.parse (uuid.to_string n) ≡ some n)
  parse_suffix-ok kind value {n} h = elim (Option-cases (strip_prefix kind value)) [
    | inl e ↦ let bad : parse_suffix uuid none ≡ ok n = rw e at h in unfold parse_suffix in cc
    | inr (suffix, e) ↦
        let good : canonical uuid suffix (uuid.parse suffix) ≡ ok n =
          unfold parse_suffix in rw e at h in
        let (parsed, same) = canonical-ok suffix (uuid.parse suffix) good in
        (rw same (strip_prefix-some kind value e), rw same parsed)
  ]

  -- A value that Parse accepts is the kind and the text of the UUID that it returns.
  pub parse-ok :
      (value kind : String) {n : ℕ}
      → parse uuid value kind ≡ ok n
      → (value ≡ kind ++ uuid.to_string n) × (uuid.parse (uuid.to_string n) ≡ some n)
  unfolding parse
  parse-ok value kind h =
      let (p, good, rest) = bind-ok (prefix kind) _ h in
      parse_suffix-ok kind value (rw (prefix-ok kind good) at rest)

  is-ok :
      (value kind : String) → is uuid value kind ≡ true → (n : ℕ) × (parse uuid value kind ≡ ok n)
  unfolding is
  is-ok value kind h = elim (Result-cases (parse uuid value kind)) [
    | inl good ↦ good
    | inr (e, bad) ↦ let no_way : false ≡ true = rw bad at h in cc
  ]

  seeded-ok :
      (p namespace : String) (parts : List String) {value : String}
      → seeded uuid p namespace parts ≡ ok value
      → (seed : String) × (value ≡ p ++ uuid.to_string (uuid.new_sha1 seed))
  unfolding seeded
  seeded-ok p namespace parts {value} h = elim (Bool-cases (is_blank namespace || no_parts parts)) [
    | inl e ↦ let bad : err invalid_seed ≡ ok value = rw e at h in cc
    | inr e ↦
        let (seeds, _, v) = bind-ok (trimmed_parts parts) _ (rw e at h) in
        (join p (trim_space namespace ∷ seeds), cc)
  ]

module _ (uuid : UuidPackage) (laws : UuidLaws uuid) where
  -- What New, Derive and FromUUID build is canonical for its kind.
  is-build :
      (kind : String) (n : ℕ)
      → prefix kind ≡ ok kind
      → n < 2 ^ 128
      → n ≢ 0
      → is uuid (kind ++ uuid.to_string n) kind ≡ true
  unfolding is parse parse_suffix canonical
  is-build kind n h fits pos =
      rw (h, strip_prefix-append kind (uuid.to_string n), laws.parse-to_string n fits, str_eq_self)
        (ground arith)

  -- Where UUIDs are written and read as documented, an identity that Derive builds is accepted by Is for
  -- the same kind.
  pub is-derive :
      (kind namespace : String) (parts : List String) {value : String}
      → derive uuid kind namespace parts ≡ ok value
      → is uuid value kind ≡ true
  unfolding derive
  is-derive kind namespace parts {value} h =
      let (p, good, rest) = bind-ok (prefix kind) _ h in
      let e : p ≡ kind = prefix-ok kind good in
      let (seed, v) = seeded-ok uuid p namespace parts rest in
      rw (v, e)
        (is-build kind (uuid.new_sha1 seed) (rw e at good) (laws.new_sha1_fits seed)
          (laws.new_sha1_ne_nil seed))

  -- Where UUIDs are written and read as documented, no value is an identity of two kinds.
  pub kind_unique :
      (value kind other : String)
      → is uuid value kind ≡ true
      → is uuid value other ≡ true
      → kind ≡ other
  kind_unique value kind other h k =
      let (n, p) = is-ok uuid value kind h in
      let (m, q) = is-ok uuid value other k in
      let (v, pn) = parse-ok uuid value kind p in
      let (w, pm) = parse-ok uuid value other q in
      (append_inj (sym v ∙ w) (
        omega (
          arith,
          ap count (sym v ∙ w),
          length-append kind (uuid.to_string n),
          length-append other (uuid.to_string m),
          laws.length_36 n (laws.parse_fits _ n pn),
          laws.length_36 m (laws.parse_fits _ m pm),
        ))).0
